-- ===== src/Task/Signals/Delivery.antt =====
-- Which signals end a process (kernel/src/task/signals.rs).
use capsule_os.Base.{
  ℕ, zero, suc, ◌+◌, ◌-◌, ◌≤◌, ◌<◌, ◌≡◌, ◌≢◌, ◌⊎◌, inl, inr, refl, sym, ap, subst, ◌∙◌, Bool,
  Bool-cases, true, false, some, bit_and, get_or, ◌==◌, eq_of_==, if◌then◌else◌, arith,
}
use Prim.Native.Nat.{bit_and-bitwise}
use capsule_os.Base.Int.{negsuc}
use capsule_os.Task.Signals.{
  Process, zombie, sig_ign, nsig, bit_of, killed, dispatch_loop, dispatch,
}

-- Its bit is set.
abbrev pub Raised : ℕ → ℕ → Type 0
Raised pending n = bit_and pending (bit_of n) ≢ 0

abbrev pub handler : Process → ℕ → ℕ
handler p n = get_or p.sig_handlers (n - 1) 0

-- Only the pending signals of a process differ.
abbrev pub Same : Process → Process → Type 0
Same p q =
    (q.id ≡ p.id)
    × (q.state ≡ p.state)
    × (q.exit_status ≡ p.exit_status)
    × (q.sig_handlers ≡ p.sig_handlers)

-- A signal from a range ends the process, with status -1, or all that are raised are ignored.
abbrev pub Delivers : ℕ → ℕ → ℕ → Process → Bool × Process → Type 0
Delivers from to pending p r =
    ((n : ℕ) × (from ≤ n)
      × (n < to)
      × Raised pending n
      × (handler p n ≢ sig_ign)
      × (r ≡ (
        true,
        record p { exit_status = some (negsuc 0); state = zombie; pending_signals = 0 },
      )))
    ⊎ (((n : ℕ) → from ≤ n → n < to → Raised pending n → handler p n ≡ sig_ign)
        × (r.0 ≡ false)
        × Same p r.1)

-- One more signal, which does not end the process.
Delivers-cons :
    (from to pending : ℕ) (p p' : Process) (r : Bool × Process)
    → Same p p'
    → killed p' ≡ killed p
    → (Raised pending from → handler p from ≡ sig_ign)
    → Delivers (from + 1) to pending p' r
    → Delivers from to pending p r
Delivers-cons from to pending p p' r (id, state, exit, handlers) kills first later = elim later [
  | inl (n, low, high, raised, fatal, e) ↦ inl (
    n,
    omega (arith, low),
    high,
    raised,
    (λ h. fatal (ap (λ hs. get_or hs (n - 1) 0) handlers ∙ h)),
    e ∙ ap (λ q. (true, q)) kills,
  )
  | inr (all, kept, (id', state', exit', handlers')) ↦ inr (
    (λ n low high raised. elim (Bool-cases (n == from)) [
      | inl here ↦
          let at : from ≡ n = sym (eq_of_== n from here) in
          subst (λ k. Raised pending k → handler p k ≡ sig_ign) at first raised
      | inr above ↦
          let up : from + 1 ≤ n = ground (arith, above, low) in
          sym (ap (λ hs. get_or hs (n - 1) 0) handlers) ∙ all n up high raised
    ]),
    kept,
    (id' ∙ id, state' ∙ state, exit' ∙ exit, handlers' ∙ handlers),
  )
]

dispatch_loop-Delivers :
    (k n to pending : ℕ) (p : Process)
    → to ≡ n + k
    → Delivers n to pending p (dispatch_loop k n pending p)
unfolding dispatch_loop
dispatch_loop-Delivers zero n to pending p h =
    inr (λ m low high raised. absurd (omega (arith, low, high, h)), refl, (refl, refl, refl, refl))
dispatch_loop-Delivers (suc k) n to pending p h =
    let next : to ≡ n + 1 + k = omega (arith, h) in
    let consumed : Process = record p {
      pending_signals = bit_and p.pending_signals (0xffff_ffff - bit_of n);
    } in
    elim (Bool-cases (bit_and pending (bit_of n) == 0)) [
      | inl clear ↦
          let none_raised : bit_and pending (bit_of n) ≡ 0 =
            eq_of_== (bit_and pending (bit_of n)) 0 clear in
          rw clear (
            Delivers-cons n to pending p p (dispatch_loop k (n + 1) pending p)
              (refl, refl, refl, refl) refl (λ raised. absurd (raised none_raised))
              (dispatch_loop-Delivers k (n + 1) to pending p next))
      | inr set_bit ↦ elim (Bool-cases (get_or p.sig_handlers (n - 1) 0 == sig_ign)) [
        | inl ignores ↦
            rw (set_bit, ignores)
              (Delivers-cons n to pending p consumed (dispatch_loop k (n + 1) pending consumed)
                (refl, refl, refl, refl) refl
                (λ _. eq_of_== (get_or p.sig_handlers (n - 1) 0) sig_ign ignores)
                (dispatch_loop-Delivers k (n + 1) to pending consumed next))
        | inr ends ↦
            rw (set_bit, ends)
              (inl (
                n,
                omega arith,
                omega (arith, h),
                ground (arith, set_bit),
                ground (arith, ends),
                refl,
              ))
      ]
    ]

by_test :
    (b : Bool) (x y : Bool × Process) (P : Bool × Process → Type 0)
    → (b ≡ true → P x)
    → (b ≡ false → P y)
    → P (if b then x else y)
by_test true x y P h k = h refl
by_test false x y P h k = k refl

nothing_raised : (pending n : ℕ) → pending ≡ 0 → bit_and pending (bit_of n) ≡ 0
nothing_raised pending n h = ap (λ w. bit_and w (bit_of n)) h ∙ bit_and-bitwise 0 (bit_of n)

-- Delivery makes a process a zombie with exit status -1, and drops all that is pending, when one of the signals 1 to 32
-- is pending that the process does not ignore; when it ignores all that are, the process goes on, and
-- only its pending signals may change.
pub dispatch-Delivers : (p : Process) → Delivers 1 33 p.pending_signals p (dispatch p)
unfolding dispatch
dispatch-Delivers p =
    by_test (p.pending_signals == 0) (false, p) (dispatch_loop nsig 1 p.pending_signals p)
      (Delivers 1 33 p.pending_signals p)
      (λ empty.
        let nothing : p.pending_signals ≡ 0 = eq_of_== p.pending_signals 0 empty in
        inr (
          λ n low high raised. absurd (raised (nothing_raised p.pending_signals n nothing)),
          refl,
          (refl, refl, refl, refl),
        ))
      (λ some_pending. dispatch_loop-Delivers nsig 1 33 p.pending_signals p refl)
