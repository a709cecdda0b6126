-- ===== src/Tcp/Receiving.antt =====
-- The reads of src/tcp/tcp_transport.cpp and their loop.
use adbcpp.Base.{
  ℕ, zero, suc, ◌+◌, ◌-◌, ◌<◌, ◌≡◌, ◌≢◌, refl, true, leb, Bool-cases, inl, inr, List, Option, none,
  some, arith, leb→not_le,
}
use adbcpp.Outcome.{stuck}
use adbcpp.Tcp.Channel.{Sockets, Tcp, read_loop, read}

module _ {D A : Type 0} (os : Sockets D A) where
  -- Time passes in a `recv` that waited for nothing.
  abbrev pub Lasts : Type 0
  Lasts =
      (descriptor : Option ℕ) (n : ℕ) (d : D)
      → os.timed_out (os.recv descriptor n d).1 ≡ true
      → os.now d < os.now (os.recv descriptor n d).1

  read_loop-returns :
      Lasts
      → (fuel : ℕ) (descriptor : Option ℕ) (deadline n : ℕ) (d : D) → deadline - os.now d < fuel
      → (read_loop os fuel descriptor deadline n d).0 ≢ stuck
  read_loop-returns lasts zero descriptor deadline n d h = absurd (omega arith)
  read_loop-returns lasts (suc fuel) descriptor deadline n d h =
      answer (os.recv descriptor n d).0 refl
        (read_loop-returns lasts fuel descriptor deadline n (os.recv descriptor n d).1)
    where
      answer :
          (a : Option (List ℕ))
          → (os.recv descriptor n d).0 ≡ a
          → (deadline - os.now (os.recv descriptor n d).1 < fuel
              → (read_loop os fuel descriptor deadline n (os.recv descriptor n d).1).0 ≢ stuck)
          → (read_loop os (suc fuel) descriptor deadline n d).0 ≢ stuck
      answer (some bytes) e more = rw (e, read_loop) (λ s. cc)
      answer none e more = elim (Bool-cases (os.timed_out (os.recv descriptor n d).1)) [
        | inr failed ↦ rw (e, failed, read_loop) (λ s. cc)
        | inl waits ↦ elim (Bool-cases (leb deadline (os.now (os.recv descriptor n d).1))) [
          | inl late ↦ rw (e, waits, late, read_loop) (λ s. cc)
          | inr early ↦
              let on = lasts descriptor n d waits in
              let before = leb→not_le deadline (os.now (os.recv descriptor n d).1) early in
              rw (e, waits, early, read_loop) (more (omega arith))
        ]
      ]

  -- Where waiting takes time, a read returns: bytes, the end of the stream or an error.
  pub read-returns : Lasts → (n : ℕ) (t : Tcp D) → (read os n t).0 ≢ stuck
  unfolding read
  read-returns lasts zero t = λ s. cc
  read-returns lasts (suc n) t =
      read_loop-returns lasts (suc t.transfer_budget_ms) t.descriptor
        (os.now t.net + t.transfer_budget_ms) (suc n) t.net (omega arith)
