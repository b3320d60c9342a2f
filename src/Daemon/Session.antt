-- ===== src/Daemon/Session.antt =====
-- A worker and the daemon's side of its activation, over one pipe in each direction: worker/operator.go
-- and daemon/execution.go together.
use microoperator.Base.{
  false, [], ◌∷◌, ◌++◌, text, same, Result, ok, err, Error, Option, none, some, true, valid_utf8,
  ◌≡◌, ◌∙◌, ap,
}
use microoperator.Protocol.Frames.{
  Message, Wire, Process, finish, send, receive, read_message, check_frame, write, read, taken,
  write-fits,
}

-- What is read when a frame was written: its text and a newline.
abbrev pub arrives : Wire → Message → Result Message
arrives wire m = read_message wire (wire.encode m ++ 10 ∷ [])

abbrev ended : Result Message
ended = err (Error.fault (text "EOF"))

-- Both processes run until they have ended. `none` is a deadlock, or a write to a process that has
-- ended.
unfoldable pub session : Wire → Process → Process → Option (Result (Unit {0}) × Result (Unit {0}))
session wire (finish r) (finish s) = some (r, s)
session wire (finish r) (receive f) = session wire (finish r) (f ended)
session wire (receive f) (finish s) = session wire (f ended) (finish s)
session wire (send m p) (receive f) = session wire p (f (arrives wire m))
session wire (receive f) (send m q) = session wire (f (arrives wire m)) q
session wire _ _ = none

abbrev pub Utf8 : Message → Type 0
Utf8 m = (valid_utf8 m.type ≡ true) × (valid_utf8 m.content ≡ true) × (valid_utf8 m.id ≡ true)

-- A frame of valid UTF-8 that may be written is read as the message that it was.
abbrev pub Faithful : Wire → Type 0
Faithful wire =
    (m : Message)
    → Utf8 m
    → check_frame wire m ≡ ok tt
    → same m.type [] ≡ false
    → arrives wire m ≡ ok m

-- A message that is not too long, has a type, and is valid UTF-8.
abbrev pub Fits : Wire → Message → Type 0
Fits wire m = (check_frame wire m ≡ ok tt) × (same m.type [] ≡ false) × Utf8 m

module _ (wire : Wire) (faithful : Faithful wire) where
  pub worker_says :
      (m : Message) (p : Process) (f : Message → Process)
      → Fits wire m
      → session wire (write wire m p) (read f) ≡ session wire p (f m)
  unfolding session read
  worker_says m p f fits =
      ap (λ x. session wire x (read f)) (write-fits wire m p fits.0)
      ∙ ap (λ r. session wire p (taken f r)) (faithful m fits.2 fits.0 fits.1)

  pub daemon_says :
      (m : Message) (f : Message → Process) (q : Process)
      → Fits wire m
      → session wire (read f) (write wire m q) ≡ session wire (f m) q
  unfolding session read
  daemon_says m f q fits =
      ap (λ x. session wire (read f) x) (write-fits wire m q fits.0)
      ∙ ap (λ r. session wire (taken f r) q) (faithful m fits.2 fits.0 fits.1)
