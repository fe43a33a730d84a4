-- ===== src/Session/Send.antt =====
-- The send queue of ChannelSession.cpp: `EnqueueSend` and `FlushSend` lose, repeat and reorder
-- nothing.
use ll2games_rpg_server.Common.{
  ℕ, zero, suc, ◌+◌, ◌≤◌, ◌<◌, ◌≡◌, refl, sym, ap, ◌∙◌, inl, inr, true, false, false≢true, ◌↔◌,
  Bool, ◌&&◌, List, [], ◌∷◌, ◌++◌, arith, if_cases, ◌==◌, if◌then◌else◌, Bool-cases, length, take,
  drop, drop_all, ==_iff, take-drop_split,
}
use mathlib.Core.Path.{ap₂}
use mathlib.Core.List.{append_assoc, append-nil, flatten}
use ll2games_rpg_server.Session.{
  Session, Action, enable_write_event, SendOutcome, sent, interrupted, would_block, send_error,
  flush_loop, flush_send, enqueue_send, is_empty,
}

-- The bytes that still have to go out: the rest of the first packet, and the other packets.
abbrev pub pending : List (List ℕ) → ℕ → List ℕ
pending [] offset = []
pending (packet ∷ queue) offset = drop offset packet ++ flatten queue

abbrev pub AllNonempty : List (List ℕ) → Type 0
AllNonempty [] = Unit {0}
AllNonempty (packet ∷ queue) = (0 < length packet) × AllNonempty queue

-- Part of the first packet, but not all of it, has gone out.
abbrev pub IsPartial : List (List ℕ) → ℕ → Type 0
IsPartial [] offset = offset ≡ 0
IsPartial (packet ∷ queue) offset = (offset < length packet) × AllNonempty queue

-- The outcomes are those of `send(2)`, which takes at most what it is given.
abbrev pub Fits : List SendOutcome → List (List ℕ) → ℕ → Type 0
Fits outcomes [] offset = Unit {0}
Fits [] (packet ∷ queue) offset = Unit {0}
Fits (sent zero ∷ outcomes) (packet ∷ queue) offset = Unit {0}
Fits (sent (suc n) ∷ outcomes) (packet ∷ queue) offset =
    (offset + suc n ≤ length packet)
    × ((offset + suc n ≡ length packet → Fits outcomes queue 0)
        × (offset + suc n < length packet → Fits outcomes (packet ∷ queue) (offset + suc n)))
Fits (interrupted ∷ outcomes) (packet ∷ queue) offset = Fits outcomes (packet ∷ queue) offset
Fits (would_block ∷ outcomes) (packet ∷ queue) offset = Unit {0}
Fits (send_error ∷ outcomes) (packet ∷ queue) offset = Unit {0}

-- The bytes that `send(2)` takes of the buffers it is given and puts on the wire, in order.
pub wire : List SendOutcome → List (List ℕ) → List ℕ
wire outcomes [] = []
wire [] (buffer ∷ buffers) = []
wire (sent n ∷ outcomes) (buffer ∷ buffers) = take n buffer ++ wire outcomes buffers
wire (interrupted ∷ outcomes) (buffer ∷ buffers) = wire outcomes buffers
wire (would_block ∷ outcomes) (buffer ∷ buffers) = wire outcomes buffers
wire (send_error ∷ outcomes) (buffer ∷ buffers) = wire outcomes buffers

start-IsPartial : (queue : List (List ℕ)) → AllNonempty queue → IsPartial queue 0
start-IsPartial [] a = refl
start-IsPartial (packet ∷ queue) a = a

pending-start : (queue : List (List ℕ)) → pending queue 0 ≡ flatten queue
unfolding flatten
pending-start [] = refl
pending-start (packet ∷ queue) = refl

take_whole :
    (offset n : ℕ) (packet : List ℕ)
    → offset + n ≡ length packet
    → take n (drop offset packet) ≡ drop offset packet
take_whole offset n packet e =
    sym (append-nil _)
    ∙ ap (◌++◌ (take n (drop offset packet))) (sym (drop_all (offset + n) packet (omega arith)))
    ∙ take-drop_split offset n packet

flush_loop-pending :
    (outcomes : List SendOutcome) (queue : List (List ℕ)) (offset : ℕ)
    → IsPartial queue offset
    → Fits outcomes queue offset
    → let (r, queue', offset', buffers) = flush_loop outcomes queue offset in
      (wire outcomes buffers ++ pending queue' offset' ≡ pending queue offset)
      × IsPartial queue' offset'
unfolding flush_loop wire
flush_loop-pending [] [] offset p fits = (refl, p)
flush_loop-pending (o ∷ outcomes) [] offset p fits = (refl, p)
flush_loop-pending [] (packet ∷ queue) offset p fits = (refl, p)
flush_loop-pending (sent zero ∷ outcomes) (packet ∷ queue) offset p fits = (refl, p)
flush_loop-pending (interrupted ∷ outcomes) (packet ∷ queue) offset p fits =
    flush_loop-pending outcomes (packet ∷ queue) offset p fits
flush_loop-pending (would_block ∷ outcomes) (packet ∷ queue) offset p fits = (refl, p)
flush_loop-pending (send_error ∷ outcomes) (packet ∷ queue) offset p fits = (refl, p)
flush_loop-pending (sent (suc n) ∷ outcomes) (packet ∷ queue) offset p fits =
    elim (Bool-cases ((offset + suc n) == length packet)) [
      | inl whole ↦
          let e = (==_iff (offset + suc n) (length packet)).0 whole in
          let (moved, kept) =
            flush_loop-pending outcomes queue 0 (start-IsPartial queue p.1) (fits.1.0 e) in
          rw whole (
            append_assoc (take (suc n) (drop offset packet)) _ _
                ∙ ap₂ ◌++◌ (take_whole offset (suc n) packet e) (moved ∙ pending-start queue),
            kept,
          )
      | inr part ↦
          let less : offset + suc n < length packet = ground arith in
          let (moved, kept) =
            flush_loop-pending outcomes (packet ∷ queue) (offset + suc n) (less, p.1)
              (fits.1.1 less) in
          rw part (
            append_assoc (take (suc n) (drop offset packet)) _ _
                ∙ ap (◌++◌ (take (suc n) (drop offset packet))) moved
                ∙ sym (append_assoc (take (suc n) (drop offset packet)) _ (flatten queue))
                ∙ ap (λ b. b ++ flatten queue) (take-drop_split offset (suc n) packet),
            kept,
          )
    ]

-- `FlushSend` loses and repeats nothing: the bytes that `send(2)` took of the buffers that it was given,
-- followed by what is left to send, are what was to be sent before, however the calls of `send(2)` end.
pub flush_send-pending :
    (outcomes : List SendOutcome) (s : Session)
    → s.closing ≡ false
    → IsPartial s.send_queue s.send_offset
    → Fits outcomes s.send_queue s.send_offset
    → let (r, t, buffers) = flush_send outcomes s in
      (wire outcomes buffers ++ pending t.send_queue t.send_offset
        ≡ pending s.send_queue s.send_offset)
      × IsPartial t.send_queue t.send_offset
unfolding flush_send
flush_send-pending outcomes s up p fits =
    rw up (flush_loop-pending outcomes s.send_queue s.send_offset p fits)

flatten-append : (xs ys : List (List ℕ)) → flatten (xs ++ ys) ≡ flatten xs ++ flatten ys
unfolding flatten
flatten-append [] ys = refl
flatten-append (x ∷ xs) ys =
    ap (◌++◌ x) (flatten-append xs ys) ∙ sym (append_assoc x (flatten xs) (flatten ys))

pending-append :
    (queue : List (List ℕ)) (offset : ℕ) (packet : List ℕ)
    → IsPartial queue offset
    → pending (queue ++ (packet ∷ [])) offset ≡ pending queue offset ++ packet
unfolding flatten
pending-append [] offset packet p = rw p (append-nil packet)
pending-append (first ∷ queue) offset packet p =
    ap (◌++◌ (drop offset first))
      (flatten-append queue (packet ∷ []) ∙ ap (◌++◌ (flatten queue)) (append-nil packet))
    ∙ sym (append_assoc (drop offset first) (flatten queue) packet)

AllNonempty-append :
    (queue : List (List ℕ)) (packet : List ℕ)
    → AllNonempty queue
    → 0 < length packet
    → AllNonempty (queue ++ (packet ∷ []))
AllNonempty-append [] packet a h = (h, tt)
AllNonempty-append (first ∷ queue) packet a h = (a.0, AllNonempty-append queue packet a.1 h)

IsPartial-append :
    (queue : List (List ℕ)) (offset : ℕ) (packet : List ℕ)
    → IsPartial queue offset
    → 0 < length packet
    → IsPartial (queue ++ (packet ∷ [])) offset
IsPartial-append [] offset packet p h = (rw p h, tt)
IsPartial-append (first ∷ queue) offset packet p h = (p.0, AllNonempty-append queue packet p.1 h)

is_empty-length : (queue : List (List ℕ)) → is_empty queue ≡ (length queue == 0)
is_empty-length [] = refl
is_empty-length (packet ∷ queue) = ground arith

-- What the server is told: to watch the descriptor for writing, where nothing waited before.
abbrev pub wakes : Session → List Action
wakes s = if length s.send_queue == 0 && s.has_server then enable_write_event s.fd ∷ [] else []

-- An accepted packet comes last; nothing else of the session changes.
abbrev pub IsQueued : List ℕ → Session → Session → Type 0
IsQueued packet s t =
    (pending t.send_queue t.send_offset ≡ pending s.send_queue s.send_offset ++ packet)
    × IsPartial t.send_queue t.send_offset
    × (t ≡ record s { send_queue = s.send_queue ++ (packet ∷ []); actions = s.actions ++ wakes s })

-- `EnqueueSend` accepts a packet exactly where it is not empty and the session is not closing. A packet
-- that it accepts goes out after all bytes that wait already, the write event is enabled exactly where
-- nothing waited and there is a server, and nothing else of the session changes; one that it refuses
-- changes nothing at all.
pub enqueue_send-pending :
    (packet : List ℕ) (s : Session)
    → IsPartial s.send_queue s.send_offset
    → let (ok, t) = enqueue_send packet s in
      ((ok ≡ true) ↔ ((0 < length packet) × (s.closing ≡ false)))
      × (ok ≡ false → t ≡ s)
      × (ok ≡ true → IsQueued packet s t)
unfolding enqueue_send
enqueue_send-pending [] s p = (
  (λ h. absurd (false≢true h), λ h. absurd (omega (arith, h.0))),
  λ h. refl,
  λ h. absurd (false≢true h),
)
enqueue_send-pending (b ∷ bs) s p =
    if_cases Told s.closing
      (λ down. (
        (λ h. absurd (false≢true h), λ h. absurd (false≢true (sym h.1 ∙ down))),
        λ h. refl,
        λ h. absurd (false≢true h),
      ))
      λ up. ((λ h. (omega arith, up), λ h. refl), λ h. absurd (false≢true (sym h)), λ h. woken)
  where
    Told : Bool × Session → Type 0
    Told r =
        ((r.0 ≡ true) ↔ ((0 < length (b ∷ bs)) × (s.closing ≡ false)))
        × (r.0 ≡ false → r.1 ≡ s)
        × (r.0 ≡ true → IsQueued (b ∷ bs) s r.1)

    after : List Action → Session
    after told = record s { send_queue = s.send_queue ++ ((b ∷ bs) ∷ []); actions = told }

    woken : IsQueued (b ∷ bs) s (
        if is_empty s.send_queue && s.has_server
        then after (s.actions ++ (enable_write_event s.fd ∷ []))
        else after s.actions)
    woken =
        let told =
          ap
            (λ (e : Bool).
              s.actions ++ (if e && s.has_server then enable_write_event s.fd ∷ [] else []))
            (is_empty-length s.send_queue) in
        let grown = pending-append s.send_queue s.send_offset (b ∷ bs) p in
        let partial = IsPartial-append s.send_queue s.send_offset (b ∷ bs) p (omega arith) in
        elim (Bool-cases (is_empty s.send_queue && s.has_server)) [
          | inl first ↦ rw first (grown, partial, ap after (rw first at told))
          | inr later ↦
              rw later (grown, partial, ap after (sym (append-nil s.actions) ∙ rw later at told))
        ]
