-- ===== src/Log.antt =====
-- src/log.cpp: the process-wide sink and its level. Each function holds the lock for its whole read
-- or write of the two, so the calls of several threads are a sequence of these operations; `log`
-- calls the sink behind the lock. `S` is a sink.
use adbcpp.Base.{
  ℕ, ◌≡◌, refl, Bool, true, false, ◌&&◌, leb, ltb, if◌then◌else◌, List, [], ◌∷◌, Option, none, some,
  ◌↔◌, arith, Bool-cases, inl, inr,
}

pub data LogLevel : Type 0 where
  error_level warning info debug trace : LogLevel

-- The value of an enumerator, which `<=` and `>` compare.
abbrev pub severity : LogLevel → ℕ
severity error_level = 0
severity warning = 1
severity info = 2
severity debug = 3
severity trace = 4

pub record Logger (S : Type 0) : Type 0 where
  pub sink : Option S
  pub level : LogLevel

abbrev pub is_set {ℓ} : {A : Type ℓ} → Option A → Bool
is_set none = false
is_set (some a) = true

-- A call of a sink.
pub record Entry (S : Type 0) : Type 0 where
  pub sink : S
  pub level : LogLevel
  pub message : List ℕ

module _ {S : Type 0} where
  unfoldable pub initial : Logger S
  initial = record { sink = none; level = info }

  -- An empty sink is `none`.
  unfoldable pub set_logger : Option S → LogLevel → Logger S → Logger S
  set_logger sink level logger = record { sink = sink; level = level }

  unfoldable pub clear_logger : Logger S → Logger S
  clear_logger logger = record logger { sink = none }

  unfoldable pub is_logging : LogLevel → Logger S → Bool
  is_logging level logger = is_set logger.sink && leb (severity level) (severity logger.level)

  -- The calls that a `log` makes, one or none.
  unfoldable pub log : LogLevel → List ℕ → Logger S → List (Entry S)
  log level message logger = elim logger.sink [
    | none ↦ []
    | some sink ↦
        if ltb (severity logger.level) (severity level)
        then []
        else record { sink = sink; level = level; message = message } ∷ []
  ]

  -- A message is logged just where `is_logging` says so.
  pub log-is_logging :
      (level : LogLevel) (message : List ℕ) (logger : Logger S)
      → (log level message logger ≡ []) ↔ (is_logging level logger ≡ false)
  unfolding log is_logging
  log-is_logging level message logger = on logger.sink logger.level
    where
      on :
          (sink : Option S) (limit : LogLevel)
          → (log level message (record { sink = sink; level = limit }) ≡ [])
            ↔ (is_logging level (record { sink = sink; level = limit }) ≡ false)
      on none limit = (λ e. refl, λ e. refl)
      on (some sink) limit = elim (Bool-cases (ltb (severity limit) (severity level))) [
        | inl above ↦
            let out : leb (severity level) (severity limit) ≡ false = ground arith in
            rw (above, out) ((λ e. refl, λ e. refl))
        | inr below ↦
            let within : leb (severity level) (severity limit) ≡ true = ground arith in
            rw (below, within) (λ e. cc, λ e. cc)
      ]
