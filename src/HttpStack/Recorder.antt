-- ===== src/HttpStack/Recorder.antt =====
-- `statusRecorder` of both files: of 39_middleware, and of 47_capstone, which keeps the first status.
use Prim.Native.String.{len}
use go_basics.Common.{
  ℕ, ◌+◌, ◌≡◌, ◌≢◌, refl, ◌∙◌, String, List, All, false, [], ◌∷◌, ◌++◌, arith, ◌==◌, if◌then◌else◌,
}
use go_basics.HttpStack.{Action, is_informational, set_header, write_header, write, Wire, act, send}

pub record StatusRecorder : Type 0 where
  pub status : ℕ
  pub bytes : ℕ

-- `Write`.
abbrev pub record_write : String → StatusRecorder → StatusRecorder
record_write text s = record {
  status = if s.status == 0 then 200 else s.status;
  bytes = s.bytes + len text;
}

-- A call of the recorder of 39_middleware.
unfoldable pub record_last : Action → StatusRecorder → StatusRecorder
record_last (set_header k v) s = s
record_last (write_header code) s = record s { status = code }
record_last (write text) s = record_write text s

-- A call of the recorder of 47_capstone.
unfoldable pub record_first : Action → StatusRecorder → StatusRecorder
record_first (set_header k v) s = s
record_first (write_header code) s = if s.status == 0 then record s { status = code } else s
record_first (write text) s = record_write text s

-- The recorder after a handler's actions.
unfoldable pub recorded :
    (Action → StatusRecorder → StatusRecorder) → List Action → StatusRecorder → StatusRecorder
recorded step [] s = s
recorded step (a ∷ as') s = recorded step as' (step a s)

-- No informational status.
abbrev pub IsFinal : Action → Type 0
IsFinal (set_header k v) = Unit
IsFinal (write_header code) = is_informational code ≡ false
IsFinal (write text) = Unit

recorded-send :
    (as' : List Action) (s : StatusRecorder) (w : Wire)
    → All IsFinal as'
    → s.status ≡ w.status
    → (recorded record_first as' s).status ≡ (send as' w).status
unfolding recorded send act record_first
recorded-send [] s w final h = h
recorded-send (set_header k v ∷ as') s w final h =
    recorded-send as' s (act (set_header k v) w) final.1 h
recorded-send (write_header code ∷ as') s w final h =
    recorded-send as' (record_first (write_header code) s) (act (write_header code) w) final.1
      (ground (arith, final.0))
recorded-send (write text ∷ as') s w final h =
    recorded-send as' (record_first (write text) s) (act (write text) w) final.1 (ground arith)

-- The first status is the one that is sent, where none is informational.
pub record_first-send :
    (as' : List Action) (w : Wire)
    → All IsFinal as'
    → w.status ≡ 0
    → (recorded record_first as' (record { status = 0; bytes = 0 })).status ≡ (send as' w).status
record_first-send as' w final h =
    recorded-send as' (record { status = 0; bytes = 0 }) w final (ground arith)

pub recorded-append :
    (step : Action → StatusRecorder → StatusRecorder) (as' bs : List Action) (s : StatusRecorder)
    → recorded step (as' ++ bs) s ≡ recorded step bs (recorded step as' s)
unfolding recorded
recorded-append step [] bs s = refl
recorded-append step (a ∷ as') bs s = recorded-append step as' bs (step a s)

pub send-append : (as' bs : List Action) (w : Wire) → send (as' ++ bs) w ≡ send bs (send as' w)
unfolding send
send-append [] bs w = refl
send-append (a ∷ as') bs w = send-append as' bs (act a w)

-- A status that is sent stays.
pub send-status : (as' : List Action) (w : Wire) → w.status ≢ 0 → (send as' w).status ≡ w.status
unfolding send act
send-status [] w h = refl
send-status (set_header k v ∷ as') w h = send-status as' (act (set_header k v) w) h
send-status (write_header code ∷ as') w h =
    send-status as' (act (write_header code) w) (ground arith) ∙ ground arith
send-status (write text ∷ as') w h =
    send-status as' (act (write text) w) (ground arith) ∙ ground arith
