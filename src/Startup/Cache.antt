-- ===== src/Startup/Cache.antt =====
-- `java_classpath` and `java_home_path` of src/main/cpp/spartan.cpp: a value that the first caller
-- stores, and that any number of threads read, interleaved in any order.
use spartan_launcher.Prelude.{
  ℕ, ◌≡◌, ◌≢◌, ◌⊎◌, inl, inr, refl, sym, ap, ◌∙◌, Bool, true, false, [], Bytes, ◌==◌, if◌then◌else◌,
  arith, Bool-cases,
}

-- Where a thread stands in a call: before the exchange of the flag, behind it as the first, before
-- the read, or with the text that it returned.
pub data Pc : Type 0 where
  entered claimed reading : Pc
  returned : Bytes → Pc

-- The flag and the text, and where the threads are.
pub record Cache : Type 0 where
  pub flag : Bool
  pub cached : Bytes
  pub pc : ℕ → Pc

abbrev pub update : (ℕ → Pc) → ℕ → Pc → ℕ → Pc
update pc i p j = if i == j then p else pc j

-- A step of one thread, where the variable has that value.
pub data CacheStep (env : Bytes) (s : Cache) : Cache → Type 0 where
  exchange_first :
      (i : ℕ)
      → s.pc i ≡ entered
      → s.flag ≡ false
      → CacheStep env s (record s { flag = true; pc = update s.pc i claimed })
  exchange_later :
      (i : ℕ)
      → s.pc i ≡ entered
      → s.flag ≡ true
      → CacheStep env s (record s { pc = update s.pc i reading })
  store :
      (i : ℕ)
      → s.pc i ≡ claimed
      → CacheStep env s (record s { cached = env; pc = update s.pc i reading })
  read :
      (i : ℕ)
      → s.pc i ≡ reading
      → CacheStep env s (record s { pc = update s.pc i (returned s.cached) })

abbrev pub new_cache : Cache
new_cache = record { flag = false; cached = []; pc = λ i. entered }

pub data Reach (env : Bytes) : Cache → Type 0 where
  start : Reach env new_cache
  later : {s t : Cache} → Reach env s → CacheStep env s t → Reach env t

-- Before the first exchange; or a thread is between its exchange and its store; or the text is that
-- of the variable.
abbrev pub Phase : Bytes → Cache → Type 0
Phase env s = (s.flag ≡ false) ⊎ ((i : ℕ) × (s.pc i ≡ claimed)) ⊎ (s.cached ≡ env)

kept_claim :
    (pc : ℕ → Pc) (i j : ℕ) (p q : Pc)
    → pc i ≡ q
    → q ≢ claimed
    → pc j ≡ claimed
    → update pc i p j ≡ claimed
kept_claim pc i j p q e other c = elim (Bool-cases (i == j)) [
  | inl same ↦ let at : i ≡ j = ground (arith, same) in absurd (other (sym e ∙ (ap pc at ∙ c)))
  | inr apart ↦ rw apart c
]

own_claim : (pc : ℕ → Pc) (i : ℕ) (p : Pc) → update pc i p i ≡ p
own_claim pc i p = ground arith

step-Phase : (env : Bytes) (s t : Cache) → Phase env s → CacheStep env s t → Phase env t
step-Phase env s t h (exchange_first i e f) = inr (inl (i, own_claim s.pc i claimed))
step-Phase env s t (inl f) (exchange_later i e g) = inl f
step-Phase env s t (inr (inl (j, c))) (exchange_later i e g) =
    inr (inl (j, kept_claim s.pc i j reading entered e (λ k. ground (arith, k)) c))
step-Phase env s t (inr (inr v)) (exchange_later i e g) = inr (inr v)
step-Phase env s t h (store i e) = inr (inr refl)
step-Phase env s t (inl f) (read i e) = inl f
step-Phase env s t (inr (inl (j, c))) (read i e) =
    inr (inl (j, kept_claim s.pc i j (returned s.cached) reading e (λ k. ground (arith, k)) c))
step-Phase env s t (inr (inr v)) (read i e) = inr (inr v)

pub reach-Phase : (env : Bytes) (s : Cache) → Reach env s → Phase env s
reach-Phase env s start = inl refl
reach-Phase env t (later {s = s} r step) = step-Phase env s t (reach-Phase env s r) step

-- Before the first exchange no thread has done anything.
abbrev pub AllEntered : Cache → Type 0
AllEntered s = s.flag ≡ false → (i : ℕ) → s.pc i ≡ entered

step-AllEntered : (env : Bytes) (s t : Cache) → AllEntered s → CacheStep env s t → AllEntered t
step-AllEntered env s t h (exchange_first i e f) k = ground (arith, k)
step-AllEntered env s t h (exchange_later i e g) k = ground (arith, k, g)
step-AllEntered env s t h (store i e) k = let here = h k i in ground (arith, e, here)
step-AllEntered env s t h (read i e) k = let here = h k i in ground (arith, e, here)

reach-AllEntered : (env : Bytes) (s : Cache) → Reach env s → AllEntered s
reach-AllEntered env s start = λ k i. refl
reach-AllEntered env t (later {s = s} r step) =
    step-AllEntered env s t (reach-AllEntered env s r) step

-- However the threads are interleaved: a thread that reads while no other stands between its
-- exchange and its store returns the text of the variable.
pub read-stored :
    (env : Bytes) (s : Cache) (i : ℕ)
    → Reach env s
    → s.pc i ≡ reading
    → ((j : ℕ) → s.pc j ≢ claimed)
    → (t : Cache) × CacheStep env s t × (t.pc i ≡ returned env)
read-stored env s i r e none_claimed = (
  record s { pc = update s.pc i (returned s.cached) },
  CacheStep.read i e,
  own_claim s.pc i (returned s.cached) ∙ ap returned (stored (reach-Phase env s r)),
)
  where
    stored : Phase env s → s.cached ≡ env
    stored (inl f) = let here = reach-AllEntered env s r f i in absurd (ground (arith, e, here))
    stored (inr (inl (j, c))) = absurd (none_claimed j c)
    stored (inr (inr v)) = v

-- A thread that comes between the exchange and the store of another returns the empty text, even
-- where the variable has a value.
pub read_early : (env : Bytes) → (t : Cache) × Reach env t × (t.pc 1 ≡ returned [])
read_early env =
    let first = record new_cache { flag = true; pc = update new_cache.pc 0 claimed } in
    let second = record first { pc = update first.pc 1 reading } in
    let r : Reach env second =
      later (later start (CacheStep.exchange_first 0 refl refl))
        (CacheStep.exchange_later 1 refl refl) in
    (record second { pc = update second.pc 1 (returned []) }, later r (CacheStep.read 1 refl), refl)
