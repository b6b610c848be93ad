-- ===== src/Gateway/Ratelimit/Window.antt =====
-- internal/gateway/ratelimit.go: runs of requests and the windows that they fall into.
use golang_microservices_eco.Prelude.{
  ℕ, suc, ◌+◌, ◌-◌, ◌≤◌, ◌<◌, ◌≡◌, refl, ap, ◌∙◌, String, List, [], ◌∷◌, Option, none, some, true,
  false, arith, ltb, leb, if◌then◌else◌, str_eq, eq_iff, All, min, inl, inr, Bool-cases, subst,
}
use golang_microservices_eco.Gateway.Ratelimit.{
  Counter, FixedWindow, alive, sweep, put, admit, allow,
}

-- A request is its caller and the time of the call.
abbrev pub Request : Type 0
Request = String × ℕ

-- How many of these requests are the caller's, and how many of those are allowed.
abbrev pub asked : String → List Request → ℕ
asked caller [] = 0
asked caller (r ∷ rs) = let rest = asked caller rs in if str_eq r.0 caller then suc rest else rest

abbrev pub granted : String → FixedWindow → List Request → ℕ
granted caller f [] = 0
granted caller f (r ∷ rs) =
    let step = allow r.0 r.1 f in
    let rest = granted caller step.1 rs in
    if str_eq r.0 caller then (if step.0.0 then suc rest else rest) else rest

-- The caller has used n requests of a window that ends at `end`.
record Holds (f : FixedWindow) (caller : String) (limit n end : ℕ) : Type 0 where
  entry : f.callers caller ≡ some (record { count = n; window_end = end })
  limited : f.limit ≡ limit

sweep-Holds :
    (f : FixedWindow) (caller : String) (limit n end now : ℕ)
    → now ≤ end
    → Holds f caller limit n end
    → Holds (sweep now f) caller limit n end
unfolding sweep alive
sweep-Holds f caller limit n end now h k = elim (Bool-cases (ltb (now - f.last_sweep) f.window)) [
  | inl early ↦ rw early k
  | inr due ↦ rw due (record { entry = rw k.entry (ground arith); limited = k.limited })
]

put_same :
    (caller : String) (c : Counter) (f : FixedWindow) → (put caller c f).callers caller ≡ some c
unfolding put
put_same caller c f = ground (arith, eq_iff caller caller)

put-limit : (caller : String) (c : Counter) (f : FixedWindow) → (put caller c f).limit ≡ f.limit
unfolding put
put-limit caller c f = refl

put-Holds :
    (f : FixedWindow) (caller other : String) (c : Counter) (limit n end : ℕ)
    → str_eq other caller ≡ false
    → Holds f caller limit n end
    → Holds (put other c f) caller limit n end
unfolding put
put-Holds f caller other c limit n end differs k = record {
  entry = ground (arith, eq_iff other caller, eq_iff caller other, k.entry);
  limited = k.limited;
}

admit-limit :
    (caller : String) (now : ℕ) (o : Option Counter) (f : FixedWindow)
    → (admit caller now o f).1.limit ≡ f.limit
unfolding admit put
admit-limit caller now none f = refl
admit-limit caller now (some current) f = ground arith

-- A request of another caller leaves the window as it is.
admit-Holds :
    (f : FixedWindow) (caller other : String) (o : Option Counter) (limit n end now : ℕ)
    → str_eq other caller ≡ false
    → Holds f caller limit n end
    → Holds (admit other now o f).1 caller limit n end
unfolding admit
admit-Holds f caller other none limit n end now differs k =
    put-Holds f caller other _ limit n end differs k
admit-Holds f caller other (some current) limit n end now differs k =
    elim (Bool-cases (ltb current.window_end now)) [
      | inl over ↦ rw over (put-Holds f caller other _ limit n end differs k)
      | inr within ↦ rw within (elim (Bool-cases (leb f.limit current.count)) [
        | inl full ↦ rw full k
        | inr room ↦ rw room (put-Holds f caller other _ limit n end differs k)
      ])
    ]

allow-Holds :
    (f : FixedWindow) (caller other : String) (limit n end now : ℕ)
    → str_eq other caller ≡ false
    → now ≤ end
    → Holds f caller limit n end
    → Holds (allow other now f).1 caller limit n end
unfolding allow
allow-Holds f caller other limit n end now differs h k =
    admit-Holds (sweep now f) caller other _ limit n end now differs
      (sweep-Holds f caller limit n end now h k)

-- A request of the caller is granted and counted while the limit is not reached.
allow_below :
    (f : FixedWindow) (caller : String) (limit n end now : ℕ)
    → n < limit
    → now ≤ end
    → Holds f caller limit n end
    → ((allow caller now f).0.0 ≡ true) × Holds (allow caller now f).1 caller limit (suc n) end
unfolding allow admit put
allow_below f caller limit n end now below h k =
    let swept = sweep-Holds f caller limit n end now h k in
    rw swept.entry (
      ground (arith, swept.limited),
      record {
        entry = ground (arith, swept.limited, eq_iff caller caller);
        limited = ground (arith, swept.limited);
      },
    )

allow_full :
    (f : FixedWindow) (caller : String) (limit end now : ℕ)
    → now ≤ end
    → Holds f caller limit limit end
    → ((allow caller now f).0.0 ≡ false) × Holds (allow caller now f).1 caller limit limit end
unfolding allow admit put
allow_full f caller limit end now h k =
    let swept = sweep-Holds f caller limit limit end now h k in
    rw swept.entry (
      ground (arith, swept.limited),
      record {
        entry = ground (arith, swept.limited, swept.entry);
        limited = ground (arith, swept.limited);
      },
    )

-- Of a caller's requests within a window as many are granted as the limit leaves.
granted_lem :
    (caller : String) (limit end : ℕ) (rs : List Request) (f : FixedWindow) (n : ℕ)
    → n ≤ limit
    → Holds f caller limit n end
    → All (λ r. r.1 ≤ end) rs
    → n + granted caller f rs ≡ min limit (n + asked caller rs)
granted_lem caller limit end [] f n le k h = omega arith
granted_lem caller limit end (r ∷ rs) f n le k h = elim (Bool-cases (str_eq r.0 caller)) [
  | inr other ↦ rw other (
      granted_lem caller limit end rs (allow r.0 r.1 f).1 n le
        (allow-Holds f caller r.0 limit n end r.1 other h.0 k) h.1)
  | inl own ↦
      rw (own, (eq_iff r.0 caller).0 own)
        (elim (Bool-cases (leb limit n)) [
          | inl full ↦
              let e : n ≡ limit = ground arith in
              let step =
                allow_full f caller limit end r.1 h.0
                  (subst (λ m. Holds f caller limit m end) e k) in
              rw step.0 (
                omega (
                  arith,
                  e,
                  granted_lem caller limit end rs (allow caller r.1 f).1 limit (omega arith) step.1
                      h.1,
                ))
          | inr room ↦
              let below : n < limit = ground arith in
              let step = allow_below f caller limit n end r.1 below h.0 k in
              rw step.0 (
                omega (
                  arith,
                  granted_lem caller limit end rs (allow caller r.1 f).1 (suc n) below step.1 h.1,
                ))
        ])
]

-- Where the window of a caller is over, or has not begun, a sweep does not bring it back.
sweep-fresh :
    (f : FixedWindow) (caller : String) (now : ℕ)
    → alive now (f.callers caller) ≡ none
    → alive now ((sweep now f).callers caller) ≡ none
unfolding sweep alive
sweep-fresh f caller now fresh = elim (Bool-cases (ltb (now - f.last_sweep) f.window)) [
  | inl early ↦ rw early fresh
  | inr due ↦ rw due (rw fresh refl)
]

sweep-kept :
    (f : FixedWindow) (now : ℕ)
    → ((sweep now f).limit ≡ f.limit) × ((sweep now f).window ≡ f.window)
unfolding sweep
sweep-kept f now = (ground arith, ground arith)

admit_fresh :
    (f : FixedWindow) (caller : String) (o : Option Counter) (now : ℕ)
    → alive now o ≡ none
    → admit caller now o f
      ≡ ((true, 0), put caller (record { count = 1; window_end = now + f.window }) f)
unfolding admit alive
admit_fresh f caller none now fresh = refl
admit_fresh f caller (some current) now fresh = ground arith

allow_fresh :
    (f : FixedWindow) (caller : String) (now : ℕ)
    → alive now (f.callers caller) ≡ none
    → ((allow caller now f).0.0 ≡ true)
      × Holds (allow caller now f).1 caller f.limit 1 (now + f.window)
unfolding allow
allow_fresh f caller now fresh =
    rw (admit_fresh (sweep now f) caller _ now (sweep-fresh f caller now fresh)) (
      refl,
      record {
        entry =
            put_same caller _ (sweep now f)
            ∙ ap (λ w. some (record { count = 1; window_end = now + w })) (sweep-kept f now).1;
        limited = put-limit caller _ (sweep now f) ∙ (sweep-kept f now).0;
      },
    )

-- In the window that a caller's request starts, where no window of the caller is running and the
-- limit is positive, the caller is granted exactly the limit, or all it asks for where that is less,
-- however many requests of others come in between and whenever the counters are swept.
pub granted-window :
    (caller : String) (now : ℕ) (f : FixedWindow) (rs : List Request)
    → alive now (f.callers caller) ≡ none
    → 1 ≤ f.limit
    → All (λ r. r.1 ≤ now + f.window) rs
    → granted caller f ((caller, now) ∷ rs) ≡ min f.limit (asked caller ((caller, now) ∷ rs))
granted-window caller now f rs fresh positive h =
    let step = allow_fresh f caller now fresh in
    let own : str_eq caller caller ≡ true = (eq_iff caller caller).1 refl in
    rw own (
      rw step.0 (
        omega (
          arith,
          granted_lem caller f.limit (now + f.window) rs (allow caller now f).1 1 positive step.1 h,
        )))

admit_refused :
    (f : FixedWindow) (caller : String) (o : Option Counter) (now later : ℕ)
    → f.callers caller ≡ o
    → (admit caller now o f).0.0 ≡ false
    → now + (admit caller now o f).0.1 < later
    → alive later ((admit caller now o f).1.callers caller) ≡ none
unfolding admit
admit_refused f caller none now later e refused waited = cc
admit_refused f caller (some current) now later e refused waited =
    elim (Bool-cases (ltb current.window_end now)) [
      | inl over ↦ cc (rw over at refused)
      | inr within ↦ elim (Bool-cases (leb f.limit current.count)) [
        | inl full ↦ rw (within, full, e) (unfold alive in ground arith)
        | inr room ↦ cc (rw (within, room) at refused)
      ]
    ]

refused_fresh :
    (caller : String) (now later : ℕ) (f : FixedWindow)
    → (allow caller now f).0.0 ≡ false
    → now + (allow caller now f).0.1 < later
    → alive later ((allow caller now f).1.callers caller) ≡ none
unfolding allow
refused_fresh caller now later f refused waited =
    admit_refused (sweep now f) caller _ now later refl refused waited

-- A caller who is refused and waits longer than the rest of its window is allowed again.
pub allow_after_delay :
    (caller : String) (now later : ℕ) (f : FixedWindow)
    → (allow caller now f).0.0 ≡ false
    → now + (allow caller now f).0.1 < later
    → (allow caller later (allow caller now f).1).0.0 ≡ true
allow_after_delay caller now later f refused waited =
    (allow_fresh (allow caller now f).1 caller later
      (refused_fresh caller now later f refused waited)).0
