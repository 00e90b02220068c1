-- ===== src/Sink/Trace.antt =====
-- Traces of the calls that a sink got, the last call first, and the contract of `Sink` on them.
use cancel_safe_futures.Base.{◌≡◌, List, [], ◌∷◌, ready, ok, returned}
use cancel_safe_futures.Sink.Client.{Call, asked, sent, flushed}

module _ {Item E : Type 0} where
  -- The last call was a `poll_ready` that succeeded.
  abbrev pub Granted : List (Call Item E) → Type 0
  Granted (asked (returned (ready (ok u))) ∷ t) = Unit
  Granted _ = ⊥

  -- Since a successful `poll_flush` there were only calls of `poll_ready`.
  abbrev pub Flushed : List (Call Item E) → Type 0
  Flushed [] = ⊥
  Flushed (asked r ∷ t) = Flushed t
  Flushed (sent i r ∷ t) = ⊥
  Flushed (flushed (returned (ready (ok u))) ∷ t) = Unit
  Flushed (flushed _ ∷ t) = ⊥

  -- The contract of `Sink`: each `start_send` follows directly on a `poll_ready` that succeeded.
  abbrev pub Ordered : List (Call Item E) → Type 0
  Ordered [] = Unit
  Ordered (asked r ∷ t) = Ordered t
  Ordered (sent i r ∷ t) = Granted t × Ordered t
  Ordered (flushed r ∷ t) = Ordered t

  -- The items sent, the last one first.
  abbrev pub items : List (Call Item E) → List Item
  items [] = []
  items (asked r ∷ t) = items t
  items (sent i r ∷ t) = i ∷ items t
  items (flushed r ∷ t) = items t

  abbrev pub Fine : List (Call Item E) → List Item → Type 0
  Fine t given = Ordered t × (items t ≡ given)
