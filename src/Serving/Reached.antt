-- ===== src/Serving/Reached.antt =====
-- A connection together with the threads and the other connections of the server.
use pronto.Prelude.{ℕ, ◌≡◌, inl, inr, Option, List, [], ◌∷◌, All}
use pronto.Bytes.{Bytes}
use pronto.Cluster.{Pronto}
use pronto.Reading.{ParseResult}
use pronto.Intake.{PhrRequest}
use pronto.Serving.{
  Watched, Ready, kept, answered, removed, stalled, fault, unreported, Step, and_then, on_event,
  serve,
}
use pronto.Serving.Deeds.{Deeds, on_event-Deeds}
use pronto.System.{System, schedule, post_notify, done, post_reschedule, Reach, later}

-- `p` is the shared state of a state that the server can reach.
abbrev pub IsReached : ℕ → ℕ → Pronto → Type 0
IsReached n m p = (t : System) × Reach n m t × (p ≡ t.pronto)

-- What others do in the meantime are steps of the server, too.
abbrev pub Others {ℓ} : {Json : Type ℓ} → ℕ → ℕ → Ready Json → Type 0
Others n m e = (s : System) → Reach n m s → IsReached n m (e.meanwhile s.pronto)

Deeds-IsReached : {n m : ℕ} (s : System) (p : Pronto) → Reach n m s → Deeds s p → IsReached n m p
Deeds-IsReached s p r (inl e) = (s, r, e)
Deeds-IsReached s p r (inr (inl (q, (t, u, a, b, e)))) =
    (u, later (later r (schedule q) a) post_notify b, e)
Deeds-IsReached s p r (inr (inr (k, q, (t, u, a, b, e)))) =
    (u, later (later r (done k q) a) post_reschedule b, e)

and_then-IsReached :
    {n m : ℕ} (step : Step) (k : Pronto → Watched → Step)
    → IsReached n m step.1.0
    → ((p : Pronto) (w : Watched) → IsReached n m p → IsReached n m (k p w).1.0)
    → IsReached n m (and_then step k).1.0
and_then-IsReached (bytes, (p, kept w)) k r next = next p w r
and_then-IsReached (bytes, (p, answered fd)) k r next = r
and_then-IsReached (bytes, (p, removed fd)) k r next = r
and_then-IsReached (bytes, (p, stalled)) k r next = r
and_then-IsReached (bytes, (p, fault)) k r next = r
and_then-IsReached (bytes, (p, unreported)) k r next = r

module _ {ℓ} {Json : Type ℓ} (phr_parse_request : Bytes → ℕ → ParseResult PhrRequest)
    (cjson_parse : Bytes → ℕ → Option Json) (valueint : Json → Bytes → Option ℕ) where
  event-IsReached :
      {n m : ℕ} (p : Pronto) (w : Watched) (e : Ready Json)
      → IsReached n m p
      → IsReached n m (on_event phr_parse_request cjson_parse valueint p w e).1.0
  event-IsReached p w e (t, r, same) =
      rw (same)
        (Deeds-IsReached t _ r (on_event-Deeds phr_parse_request cjson_parse valueint t w e))

  -- A connection of a running server: if what others do to the shared state between its events are steps
  -- of the server, then so is what the connection does, over any events and whatever the calls made for
  -- them return. The shared state it leaves is one that the server can reach.
  pub serve-IsReached :
      {n m : ℕ} (p : Pronto) (w : Watched) (events : List (Ready Json))
      → IsReached n m p
      → All (Others n m) events
      → IsReached n m (serve phr_parse_request cjson_parse valueint p w events).1.0
  unfolding serve
  serve-IsReached p w [] r others = r
  serve-IsReached {n} {m} p w (e ∷ events) (t, r, same) (other, others) =
      and_then-IsReached (on_event phr_parse_request cjson_parse valueint (e.meanwhile p) w e) _
        (event-IsReached (e.meanwhile p) w e (rw (same) (other t r)))
        λ q v reached. serve-IsReached q v events reached others
