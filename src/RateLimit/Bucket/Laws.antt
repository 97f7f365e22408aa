-- ===== src/RateLimit/Bucket/Laws.antt =====
-- How many requests a bucket admits, and when it admits the next.
use usp_cloud_native.Prelude.{
  ℕ, suc, ◌+◌, ◌-◌, ◌*◌, ◌≤◌, ◌<◌, true, if◌then◌else◌, Option, some, List, [], ltb, ◌∷◌, All,
  length, leb, arith, ◌≡◌, refl, ap, Bool-cases, inl, inr,
}
use usp_cloud_native.RateLimit.Policy.{Policy}
use usp_cloud_native.RateLimit.Bucket.{
  Bucket, capacity, loaded, refilled, take_token, saved, ceil_div, ttl_ms, ms_to_full,
}

abbrev pub sum : List ℕ → ℕ
sum [] = 0
sum (gap ∷ gaps) = gap + sum gaps

pub mul_mono : (a b c : ℕ) → a ≤ b → a * c ≤ b * c
mul_mono a b c h = grind arith

pub elapsed : (a b : ℕ) → (a + b) - a ≡ b
elapsed a b = omega arith

ceil_div_covers : (a b : ℕ) → 0 < b → a ≤ ceil_div a b * b
ceil_div_covers a b h = grind arith

module _ (p : Policy) where
  -- The key outlives its bucket's time to live, as every key that the script writes does.
  abbrev pub Lasts : Bucket → Type 0
  Lasts b = b.last_refill + ttl_ms p ≤ b.expires

  saved-Lasts : (tokens now : ℕ) → Lasts (saved p tokens now)
  saved-Lasts tokens now = omega (arith, ceil_div_covers (ttl_ms p) 1000 (omega arith))

  -- A bucket never holds more than its capacity, and its key lasts.
  pub take_token-saved :
      (state : Option Bucket) (now : ℕ)
      → let b = (take_token p state now).1 in
        (b.tokens ≤ capacity p) × Lasts b × (b.last_refill ≡ now)
  unfolding take_token
  take_token-saved state now =
      let tokens = refilled p (loaded p state now) now in
      elim (Bool-cases (leb p.window tokens)) [
        | inl e ↦ rw e (ground arith, saved-Lasts (tokens - p.window) now, refl)
        | inr e ↦ rw e (ground arith, saved-Lasts tokens now, refl)
      ]

  -- A refill gives at most the limit for each millisecond, also when the key has expired meanwhile,
  -- if a full bucket refills within the time to live.
  refilled-le :
      (b : Bucket) (gap : ℕ)
      → capacity p ≤ ttl_ms p * p.limit
      → Lasts b
      → refilled p (loaded p (some b) (b.last_refill + gap)) (b.last_refill + gap)
        ≤ b.tokens + gap * p.limit
  refilled-le b gap fits lasts = elim (Bool-cases (ltb (b.last_refill + gap) b.expires)) [
    | inl e ↦ rw (e, elapsed b.last_refill gap) (omega arith)
    | inr e ↦
        let late : ttl_ms p ≤ gap = ground arith in
        rw e (omega (arith, mul_mono (ttl_ms p) gap p.limit late))
  ]

  -- Requests one after another, by the milliseconds that pass between them: how many are admitted,
  -- and the bucket at the end.
  unfoldable pub admit : Bucket → List ℕ → ℕ × Bucket
  admit b [] = (0, b)
  admit b (gap ∷ gaps) =
      let (o, b') = take_token p (some b) (b.last_refill + gap) in
      let (n, end) = admit b' gaps in ((if o.allowed then suc n else n), end)

  take_token-balance :
      (b : Bucket) (gap : ℕ)
      → capacity p ≤ ttl_ms p * p.limit
      → Lasts b
      → let (o, b') = take_token p (some b) (b.last_refill + gap) in
        (if o.allowed then p.window else 0) + b'.tokens ≤ b.tokens + gap * p.limit
  unfolding take_token
  take_token-balance b gap fits lasts =
      let now = b.last_refill + gap in
      let tokens = refilled p (loaded p (some b) now) now in
      let bound = refilled-le b gap fits lasts in
      elim (Bool-cases (leb p.window tokens)) [
        | inl e ↦ rw e (ground arith)
        | inr e ↦ rw e (ground arith)
      ]

  -- What was admitted, and what is left, was in the bucket or came in since.
  admit-balance :
      (b : Bucket) (gaps : List ℕ)
      → capacity p ≤ ttl_ms p * p.limit
      → Lasts b
      → (admit b gaps).0 * p.window + (admit b gaps).1.tokens ≤ b.tokens + sum gaps * p.limit
  unfolding admit
  admit-balance b [] fits lasts = omega arith
  admit-balance b (gap ∷ gaps) fits lasts =
      let now = b.last_refill + gap in
      let b' = (take_token p (some b) now).1 in
      let step = take_token-balance b gap fits lasts in
      let later = admit-balance b' gaps fits (take_token-saved (some b) now).1 in
      elim (Bool-cases (take_token p (some b) now).0.allowed) [
        | inl e ↦ rw e (omega (arith, later, (rw e at step)))
        | inr e ↦ rw e (omega (arith, later, (rw e at step)))
      ]

  -- However the requests come, a bucket that holds at most the capacity, whose key lives for two
  -- windows, admits no more than the capacity and what the limit gives for the time that passed,
  -- whether or not the key expires in between, if a full bucket refills within two windows.
  pub admit_bound :
      (b : Bucket) (gaps : List ℕ)
      → capacity p ≤ ttl_ms p * p.limit
      → Lasts b
      → b.tokens ≤ capacity p
      → (admit b gaps).0 * p.window ≤ capacity p + sum gaps * p.limit
  admit_bound b gaps fits lasts full = omega (arith, admit-balance b gaps fits lasts)

  refilled-ge :
      (b : Bucket) (gap : ℕ)
      → p.window ≤ capacity p
      → p.window ≤ gap * p.limit
      → p.window ≤ refilled p (loaded p (some b) (b.last_refill + gap)) (b.last_refill + gap)
  refilled-ge b gap one paid = elim (Bool-cases (ltb (b.last_refill + gap) b.expires)) [
    | inl e ↦ rw (e, elapsed b.last_refill gap) (omega arith)
    | inr e ↦ rw e (omega arith)
  ]

  take_token-allowed :
      (state : Option Bucket) (now : ℕ)
      → p.window ≤ refilled p (loaded p state now) now
      → (take_token p state now).0.allowed ≡ true
  unfolding take_token
  take_token-allowed state now h = ground arith

  -- A client whose requests are each far enough apart for the limit to give one token is never
  -- refused, if the capacity is at least one token.
  pub admit-length :
      (b : Bucket) (gaps : List ℕ)
      → p.window ≤ capacity p
      → All (λ gap. p.window ≤ gap * p.limit) gaps
      → (admit b gaps).0 ≡ length gaps
  unfolding admit
  admit-length b [] one paid = refl
  admit-length b (gap ∷ gaps) one (here, rest) =
      let now = b.last_refill + gap in
      let b' = (take_token p (some b) now).1 in
      let later = admit-length b' gaps one rest in
      rw (take_token-allowed (some b) now (refilled-ge b gap one here)) (ap suc later)

  -- The state that a call writes, and the reset time that goes with it.
  take_token-left :
      (state : Option Bucket) (now : ℕ)
      → (tokens : ℕ) × ((take_token p state now).1 ≡ saved p tokens now)
        × ((take_token p state now).0.reset ≡ now + ms_to_full p tokens)
  unfolding take_token
  take_token-left state now =
      let tokens = refilled p (loaded p state now) now in
      elim (Bool-cases (leb p.window tokens)) [
        | inl e ↦ (tokens - p.window, rw e, rw e)
        | inr e ↦ (tokens, rw e, rw e)
      ]

  full_later :
      (tokens now later : ℕ)
      → 0 < p.limit
      → p.window ≤ capacity p
      → now + ms_to_full p tokens ≤ later
      → p.window ≤ refilled p (loaded p (some (saved p tokens now)) later) later
  full_later tokens now later positive one h =
      elim (Bool-cases (ltb later (saved p tokens now).expires)) [
        | inl e ↦
            let wait : ceil_div (capacity p - tokens) p.limit ≤ later - now = ground arith in
            rw e (
              omega (
                arith,
                ceil_div_covers (capacity p - tokens) p.limit positive,
                mul_mono (ceil_div (capacity p - tokens) p.limit) (later - now) p.limit wait,
              ))
        | inr e ↦ rw e (omega arith)
      ]

  -- From the reset time that an answer names, the next request is admitted, if the limit is
  -- positive and the capacity at least one token.
  pub reset_admits :
      (state : Option Bucket) (now later : ℕ)
      → 0 < p.limit
      → p.window ≤ capacity p
      → (take_token p state now).0.reset ≤ later
      → (take_token p (some (take_token p state now).1) later).0.allowed ≡ true
  reset_admits state now later positive one h =
      let (tokens, left, reset) = take_token-left state now in
      take_token-allowed (some (take_token p state now).1) later
        (rw left (full_later tokens now later positive one (rw reset at h)))
