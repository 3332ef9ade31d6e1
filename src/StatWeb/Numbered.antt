-- ===== src/StatWeb/Numbered.antt =====
-- Whatever the ticker, the status stream and the client do, the events are numbered in order.
use torrent_web_seeder.Prelude.{
  ℕ, ◌+◌, ◌≡◌, refl, sym, ◌∙◌, ap, subst, ◌⊎◌, inl, inr, true, false, Bool-cases, if_split, if_true,
  if_false, Option, some, List, [], ◌∷◌, ◌++◌, if◌then◌else◌, length, length-append, arith, Text,
  text_eq, Result, Result-cases, ok, err,
}
use mathlib.Core.List.{append_assoc, append-nil}
use torrent_web_seeder.StatWeb.{
  Frame, StatStreamServer, new_stat_stream_server, ping_event, statupdate_event, write_frame, ping,
  send,
}

-- The ticker at a time, a reply of the status stream, or the end of the request.
pub data Event (Reply : Type 0) : Type 0 where
  ticked : ℕ → Event Reply
  replied : Reply → Event Reply
  left : Event Reply

-- Numbers from `n` on.
abbrev pub NumberedFrom : ℕ → List Frame → Type 0
NumberedFrom n [] = Unit {0}
NumberedFrom n (f ∷ fs) = (f.id ≡ n) × NumberedFrom (n + 1) fs

-- The data of the status events.
unfoldable pub updates : List Frame → List Text
updates [] = []
updates (f ∷ fs) = if text_eq f.event statupdate_event then f.data_line ∷ updates fs else updates fs

module _ {Reply : Type 0} (decimal : ℕ → Text) (marshal : Reply → Result Text) (gone : Text) where
  unfoldable pub on_event : StatStreamServer → Event Reply → StatStreamServer
  on_event s (ticked now) = ping decimal now s
  on_event s (replied m) = (send marshal gone m s).0
  on_event s left = record s { is_done = true }

  unfoldable pub run : StatStreamServer → List (Event Reply) → StatStreamServer
  unfolding on_event
  run s [] = s
  run s (e ∷ es) = run (on_event s e) es

  -- What should reach the client: the replies that can be written as JSON, up to the end.
  unfoldable pub sent : List (Event Reply) → List Text
  sent [] = []
  sent (ticked now ∷ es) = sent es
  sent (replied m ∷ es) =
      let rest = sent es in elim (marshal m) [ err e ↦ rest | ok line ↦ line ∷ rest ]
  sent (left ∷ es) = []

  -- The frames are numbered from 0, and the counter is their number.
  pub record IsNumbered (s : StatStreamServer) : Type 0 where
    pub numbered : NumberedFrom 0 s.frames
    pub counted : s.counter ≡ length s.frames

  NumberedFrom-append :
      (n : ℕ) (fs : List Frame) (f : Frame)
      → NumberedFrom n fs
      → f.id ≡ n + length fs
      → NumberedFrom n (fs ++ (f ∷ []))
  NumberedFrom-append n [] f a e = (omega (arith, e), tt)
  NumberedFrom-append n (g ∷ fs) f (h, a) e =
      (h, NumberedFrom-append (n + 1) fs f a (omega (arith, e)))

  write_frame-IsNumbered :
      (event line : Text) (s : StatStreamServer)
      → IsNumbered s
      → IsNumbered (write_frame event line s)
  unfolding write_frame
  write_frame-IsNumbered event line s v =
      let f : Frame = record { id = s.counter; event = event; data_line = line } in
      record {
        numbered = NumberedFrom-append 0 s.frames f v.numbered (omega (arith, v.counted));
        counted = omega (arith, v.counted, length-append s.frames (f ∷ []));
      }

  send_done : (s : StatStreamServer) (m : Reply) → s.is_done ≡ true → (send marshal gone m s).0 ≡ s
  unfolding send
  send_done s m d =
      ap (λ (out : StatStreamServer × Option Text). out.0) (if_true s.is_done (s, some gone) _ d)

  send_failed :
      (s : StatStreamServer) (m : Reply) (e : Text)
      → s.is_done ≡ false
      → marshal m ≡ err e
      → (send marshal gone m s).0 ≡ s
  unfolding send
  send_failed s m e d q =
      ap (λ (out : StatStreamServer × Option Text). out.0) (if_false s.is_done (s, some gone) _ d)
      ∙ rw q refl

  send_written :
      (s : StatStreamServer) (m : Reply) (line : Text)
      → s.is_done ≡ false
      → marshal m ≡ ok line
      → (send marshal gone m s).0 ≡ write_frame statupdate_event line s
  unfolding send
  send_written s m line d q =
      ap (λ (out : StatStreamServer × Option Text). out.0) (if_false s.is_done (s, some gone) _ d)
      ∙ rw q refl

  send_cases :
      (s : StatStreamServer) (m : Reply)
      → ((send marshal gone m s).0 ≡ s)
        ⊎ ((line : Text) × ((send marshal gone m s).0 ≡ write_frame statupdate_event line s))
  send_cases s m = elim (Bool-cases s.is_done) [
    | inl d ↦ inl (send_done s m d)
    | inr d ↦ elim (Result-cases (marshal m)) [
      | inl (e, q) ↦ inl (send_failed s m e d q)
      | inr (line, q) ↦ inr (line, send_written s m line d q)
    ]
  ]

  ping_done : (now : ℕ) (s : StatStreamServer) → s.is_done ≡ true → ping decimal now s ≡ s
  unfolding ping
  ping_done now s d = if_true s.is_done s _ d

  ping_written :
      (now : ℕ) (s : StatStreamServer)
      → s.is_done ≡ false
      → ping decimal now s ≡ write_frame ping_event (decimal now) s
  unfolding ping
  ping_written now s d = if_false s.is_done s _ d

  on_event-IsNumbered :
      (s : StatStreamServer) (e : Event Reply) → IsNumbered s → IsNumbered (on_event s e)
  unfolding on_event ping send
  on_event-IsNumbered s (ticked now) v =
      if_split IsNumbered s.is_done (λ d. v)
        (λ d. write_frame-IsNumbered ping_event (decimal now) s v)
  on_event-IsNumbered s (replied m) v = elim (send_cases s m) [
    | inl e ↦ subst IsNumbered (sym e) v
    | inr (line, e) ↦ subst IsNumbered (sym e) (write_frame-IsNumbered statupdate_event line s v)
  ]
  on_event-IsNumbered s left v = record { numbered = v.numbered; counted = v.counted }

  run-IsNumbered :
      (s : StatStreamServer) (es : List (Event Reply)) → IsNumbered s → IsNumbered (run s es)
  unfolding run
  run-IsNumbered s [] v = v
  run-IsNumbered s (e ∷ es) v = run-IsNumbered (on_event s e) es (on_event-IsNumbered s e v)

  updates-append : (fs gs : List Frame) → updates (fs ++ gs) ≡ updates fs ++ updates gs
  unfolding updates
  updates-append [] gs = refl
  updates-append (f ∷ fs) gs = elim (Bool-cases (text_eq f.event statupdate_event)) [
    | inl y ↦ rw y (ap (◌∷◌ f.data_line) (updates-append fs gs))
    | inr n ↦ rw n (updates-append fs gs)
  ]

  -- A stream that is done stays as it is.
  run_done :
      (s : StatStreamServer) (es : List (Event Reply))
      → s.is_done ≡ true
      → (run s es).frames ≡ s.frames
  unfolding run on_event
  run_done s [] d = refl
  run_done s (ticked now ∷ es) d = ap (λ x. (run x es).frames) (ping_done now s d) ∙ run_done s es d
  run_done s (replied m ∷ es) d = ap (λ x. (run x es).frames) (send_done s m d) ∙ run_done s es d
  run_done s (left ∷ es) d = run_done (record s { is_done = true }) es refl

  updated :
      (line : Text) (s : StatStreamServer)
      → updates (write_frame statupdate_event line s).frames ≡ updates s.frames ++ (line ∷ [])
  unfolding write_frame
  updated line s = updates-append s.frames _ ∙ unfold updates in unfold text_eq in refl

  pinged :
      (line : Text) (s : StatStreamServer)
      → updates (write_frame ping_event line s).frames ≡ updates s.frames
  unfolding write_frame
  pinged line s =
      updates-append s.frames _ ∙ unfold updates in unfold text_eq in append-nil (updates s.frames)

  updates-run :
      (s : StatStreamServer) (es : List (Event Reply))
      → s.is_done ≡ false
      → updates (run s es).frames ≡ updates s.frames ++ sent es
  unfolding run on_event sent
  updates-run s [] d = sym (append-nil (updates s.frames))
  updates-run s (ticked now ∷ es) d =
      let next = write_frame ping_event (decimal now) s in
      ap (λ x. updates (run x es).frames) (ping_written now s d)
      ∙ updates-run next es (unfold write_frame in d)
      ∙ ap (λ x. x ++ sent es) (pinged (decimal now) s)
  updates-run s (replied m ∷ es) d = elim (Result-cases (marshal m)) [
    | inl (e, q) ↦
        ap (λ x. updates (run x es).frames) (send_failed s m e d q)
        ∙ updates-run s es d
        ∙ rw (sent, q) refl
    | inr (line, q) ↦
        ap (λ x. updates (run x es).frames) (send_written s m line d q)
        ∙ updates-run (write_frame statupdate_event line s) es (unfold write_frame in d)
        ∙ ap (λ x. x ++ sent es) (updated line s)
        ∙ append_assoc (updates s.frames) (line ∷ []) (sent es)
        ∙ rw (sent, q) refl
  ]
  updates-run s (left ∷ es) d =
      ap updates (run_done (record s { is_done = true }) es refl)
      ∙ sym (append-nil (updates s.frames))

  -- Whatever order the ticker, the replies and the end of the request come in, the events that were
  -- written are numbered from 0 without a gap, the counter is their number, and the status events among
  -- them are the replies up to the end that can be written as JSON, in order.
  pub run_delivers :
      (es : List (Event Reply))
      → IsNumbered (run new_stat_stream_server es)
        × (updates (run new_stat_stream_server es).frames ≡ sent es)
  run_delivers es = (
    run-IsNumbered new_stat_stream_server es (record { numbered = tt; counted = refl }),
    updates-run new_stat_stream_server es refl ∙ unfold updates in refl,
  )
