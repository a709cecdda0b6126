-- ===== src/Tcp/Sending.antt =====
-- What a write of src/tcp/tcp_transport.cpp has sent when it returns.
use adbcpp.Base.{
  ℕ, zero, suc, ◌+◌, ◌-◌, ◌≤◌, ◌<◌, ◌≡◌, sym, ap, ◌∙◌, true, leb, Bool-cases, inl, inr, List, [],
  ◌∷◌, ◌++◌, Option, none, some, length, take, drop, arith, leb→not_le, append-nil, append_assoc,
  take-append-drop, length-drop, take_add,
}
use adbcpp.Outcome.{Error, Status, ok, err}
use adbcpp.Tcp.Channel.{Sockets, Tcp, send_answer, write_loop, write}

module _ {D A : Type 0} (os : Sockets D A) (sent : D → List ℕ) where
  -- What the answer of `send` says of the bytes that the socket took, and that time passes: the
  -- clock does not go back, and moves on where the call waited.
  abbrev pub Accounts : List ℕ → D → Option ℕ × D → Type 0
  Accounts bytes d (none, after) =
      (sent after ≡ sent d) × (os.timed_out after ≡ true → os.now d < os.now after)
  Accounts bytes d (some n, after) =
      (n ≤ length bytes) × (sent after ≡ sent d ++ take n bytes) × (os.now d ≤ os.now after)

  abbrev pub IsSocket : Type 0
  IsSocket =
      (descriptor : Option ℕ) (bytes : List ℕ) (d : D)
      → Accounts bytes d (os.send descriptor bytes d)

  -- How a write ends: with all of its bytes sent, or with an error and some of the first of them.
  pub data Delivered (bytes : List ℕ) (d : D) : Status × D → Type 0 where
    whole : (after : D) → sent after ≡ sent d ++ bytes → Delivered bytes d (ok tt, after)
    part :
        (e : Error) (after : D) (k : ℕ)
        → sent after ≡ sent d ++ take k bytes
        → Delivered bytes d (err e, after)

  -- More bytes behind those that a round sent.
  Delivered-behind :
      (n : ℕ) (bytes : List ℕ) (d next : D) (r : Status × D)
      → sent next ≡ sent d ++ take n bytes
      → Delivered (drop n bytes) next r
      → Delivered bytes d r
  Delivered-behind n bytes d next _ e (whole after h) = whole after (
      h
      ∙ ap (λ (t : List ℕ). t ++ drop n bytes) e
      ∙ append_assoc (sent d) (take n bytes) (drop n bytes)
      ∙ ap (◌++◌ (sent d)) (take-append-drop n bytes))
  Delivered-behind n bytes d next _ e (part f after k h) = part f after (n + k) (
      h
      ∙ ap (λ (t : List ℕ). t ++ take k (drop n bytes)) e
      ∙ append_assoc (sent d) (take n bytes) (take k (drop n bytes))
      ∙ ap (◌++◌ (sent d)) (sym (take_add n k bytes)))

  send_answer-Delivered :
      (again : List ℕ → D → Status × D) (fuel deadline : ℕ) (bytes : List ℕ) (d : D)
      (a : Option ℕ × D)
      → Accounts bytes d a
      → length bytes + (deadline - os.now d) < suc fuel
      → 0 < length bytes
      → ((left : List ℕ) (next : D)
          → length left + (deadline - os.now next) < fuel
          → Delivered left next (again left next))
      → Delivered bytes d (send_answer os again deadline bytes a)
  send_answer-Delivered again fuel deadline bytes d (some zero, next) (fits, took, later) h
        some_left more =
      part _ next 0 took
  send_answer-Delivered again fuel deadline bytes d (some (suc n), next) (fits, took, later) h
        some_left more =
      let left = length-drop (suc n) bytes in
      Delivered-behind (suc n) bytes d next _ took (more (drop (suc n) bytes) next (omega arith))
  send_answer-Delivered again fuel deadline bytes d (none, next) (same, passes) h some_left more =
      let kept = same ∙ sym (append-nil (sent d)) in
      elim (Bool-cases (os.timed_out next)) [
        | inr failed ↦ rw failed (part _ next 0 kept)
        | inl waits ↦ elim (Bool-cases (leb deadline (os.now next))) [
          | inl late ↦ rw (waits, late) (part _ next 0 kept)
          | inr early ↦
              let on = passes waits in
              let before = leb→not_le deadline (os.now next) early in
              rw (waits, early)
                (Delivered-behind 0 bytes d next _ kept (more bytes next (omega arith)))
        ]
      ]

  write_loop-Delivered :
      IsSocket
      → (fuel : ℕ) (descriptor : Option ℕ) (deadline : ℕ) (bytes : List ℕ) (d : D)
      → length bytes + (deadline - os.now d) < fuel
      → Delivered bytes d (write_loop os fuel descriptor deadline bytes d)
  write_loop-Delivered socket zero descriptor deadline bytes d h = absurd (omega arith)
  write_loop-Delivered socket (suc fuel) descriptor deadline [] d h =
      whole d (sym (append-nil (sent d)))
  write_loop-Delivered socket (suc fuel) descriptor deadline (b ∷ bytes) d h =
      send_answer-Delivered (write_loop os fuel descriptor deadline) fuel deadline (b ∷ bytes) d
        (os.send descriptor (b ∷ bytes) d) (socket descriptor (b ∷ bytes) d) h (omega arith)
        (write_loop-Delivered socket fuel descriptor deadline)

  -- Where `send` says truly how many bytes the socket took and waiting takes time, a write returns, and
  -- what it returns is true: where it succeeds
  -- the socket took all of the bytes in their order, and where it fails some of the first of them.
  pub write-Delivered :
      IsSocket
      → (bytes : List ℕ) (t : Tcp D)
      → Delivered bytes t.net ((write os bytes t).0, (write os bytes t).1.net)
  unfolding write
  write-Delivered socket bytes t =
      write_loop-Delivered socket (length bytes + suc t.transfer_budget_ms) t.descriptor
        (os.now t.net + t.transfer_budget_ms) bytes t.net (omega arith)
