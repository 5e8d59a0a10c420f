-- ===== src/Utils/Numbers.antt =====
-- Numbers inside a string: `ReadUInt32FromString` skips to the first digit and reads to the last.
use native.Mathlib.Nat.{div-add-mod, add-mul-mod_self_right}
use komandgo.Base.{
  List, ◌/◌, sym, ap, drop, get_elem?, true, false, ℕ, zero, suc, ◌+◌, ◌-◌, ◌*◌, ◌%◌, ◌^◌, ◌<◌, ◌≡◌,
  refl, [], ◌∷◌, ◌++◌, none, some, arith, Bytes, length, length-append, All,
}
use komandgo.Fmt.Decimal.{IsDigit, value}
use komandgo.Utils.{digit_of, scan_string, read_uint32_from_string}

-- `strings.IndexByte` finds a digit at its value, and nothing else.
pub digit_of-digit : (c : ℕ) → IsDigit c → digit_of c ≡ some (c - b'0')
unfolding digit_of
digit_of-digit c h = ground arith

pub digit_of-other : (c : ℕ) → ¬ IsDigit c → digit_of c ≡ none
unfolding digit_of
digit_of-other c h = ground arith

-- The number that the digits spell behind `n`, in a word of modulus `m`.
abbrev pub wrapped : ℕ → ℕ → Bytes → ℕ
wrapped m n [] = n
wrapped m n (c ∷ ds) = wrapped m ((10 * n + (c - b'0')) % m) ds

mod_step : (m n d : ℕ) → (10 * (n % m) + d) % m ≡ (n * 10 + d) % m
mod_step m n d =
    let e : n * 10 + d ≡ 10 * (n % m) + d + 10 * (n / m) * m =
      omega (arith, ap (λ (t : ℕ). 10 * t) (div-add-mod n m)) in
    rw e (sym (add-mul-mod_self_right (10 * (n % m) + d) (10 * (n / m)) m))

-- A word holds the true number up to its modulus.
pub wrapped-value : (m n : ℕ) (ds : Bytes) → wrapped m (n % m) ds ≡ value n ds % m
wrapped-value m n [] = refl
wrapped-value m n (c ∷ ds) = rw (mod_step m n (c - b'0')) (wrapped-value m (n * 10 + (c - b'0')) ds)

pub get_elem?-drop {ℓ} :
    {A : Type ℓ} (s : List A) (i : ℕ) (x : A) (t : List A)
    → drop i s ≡ x ∷ t
    → (get_elem? s i ≡ some x) × (drop (suc i) s ≡ t)
get_elem?-drop [] zero x t h = cc
get_elem?-drop [] (suc i) x t h = cc
get_elem?-drop (y ∷ s) zero x t h = ground arith
get_elem?-drop (y ∷ s) (suc i) x t h = get_elem?-drop s i x t h

pub get_elem?-drop_nil : (s : Bytes) (i : ℕ) → drop i s ≡ [] → get_elem? s i ≡ none
get_elem?-drop_nil [] i h = refl
get_elem?-drop_nil (y ∷ s) zero h = cc
get_elem?-drop_nil (y ∷ s) (suc i) h = get_elem?-drop_nil s i h

pub length-drop : (s : Bytes) (i : ℕ) → length (drop i s) ≡ length s - i
length-drop s zero = omega arith
length-drop [] (suc i) = omega arith
length-drop (y ∷ s) (suc i) = omega (arith, length-drop s i)

-- A text in which the number in front has ended.
abbrev pub Stops : Bytes → Type 0
Stops [] = Unit
Stops (c ∷ s) = ¬ IsDigit c

scan_string-digits :
    (fuel : ℕ) (s : Bytes) (rv start : ℕ) (ds rest : Bytes)
    → drop start s ≡ ds ++ rest
    → All IsDigit ds
    → Stops rest
    → length ds < fuel
    → scan_string fuel s rv true start ≡ (wrapped (2 ^ 32) rv ds, start + length ds)
unfolding scan_string
scan_string-digits zero s rv start ds rest h _ _ hf = elim hf [ ]
scan_string-digits (suc fuel) s rv start [] [] h _ _ hf =
    ground (arith, get_elem?-drop_nil s start h)
scan_string-digits (suc fuel) s rv start [] (c ∷ rest) h _ hc hf =
    ground (arith, get_elem?-drop s start c rest h, digit_of-other c hc)
scan_string-digits (suc fuel) s rv start (c ∷ ds) rest h (hc, hds) hr hf =
    let (here, next) = get_elem?-drop s start c (ds ++ rest) h in
    ground (
      arith,
      here,
      digit_of-digit c hc,
      scan_string-digits fuel s ((10 * rv + (c - b'0')) % 2 ^ 32) (suc start) ds rest next hds hr,
    )

scan_string-skip :
    (fuel : ℕ) (s : Bytes) (start : ℕ) (junk : Bytes) (c : ℕ) (ds rest : Bytes)
    → drop start s ≡ junk ++ c ∷ (ds ++ rest)
    → All (λ x. ¬ IsDigit x) junk
    → All IsDigit (c ∷ ds)
    → Stops rest
    → length junk + suc (length ds) < fuel
    → scan_string fuel s 0 false start
      ≡ (wrapped (2 ^ 32) 0 (c ∷ ds), start + length junk + suc (length ds))
unfolding scan_string
scan_string-skip zero s start junk c ds rest h _ _ _ hf = elim hf [ ]
scan_string-skip (suc fuel) s start [] c ds rest h _ (hc, hds) hr hf =
    let (here, next) = get_elem?-drop s start c (ds ++ rest) h in
    ground (
      arith,
      here,
      digit_of-digit c hc,
      scan_string-digits fuel s ((c - b'0') % 2 ^ 32) (suc start) ds rest next hds hr,
    )
scan_string-skip (suc fuel) s start (x ∷ junk) c ds rest h (hx, hj) hd hr hf =
    let (here, next) = get_elem?-drop s start x (junk ++ c ∷ (ds ++ rest)) h in
    ground (
      arith,
      here,
      digit_of-other x hx,
      scan_string-skip fuel s (suc start) junk c ds rest next hj hd hr,
    )

-- From `start`, `ReadUInt32FromString` skips what is no digit, reads the digits that follow, up to
-- the end of the text or another byte, as a number modulo 2^32, and returns the index behind them.
pub read_uint32_from_string-digits :
    (s : Bytes) (start : ℕ) (junk : Bytes) (c : ℕ) (ds rest : Bytes)
    → drop start s ≡ junk ++ c ∷ (ds ++ rest)
    → All (λ x. ¬ IsDigit x) junk
    → All IsDigit (c ∷ ds)
    → Stops rest
    → read_uint32_from_string s start
      ≡ (value 0 (c ∷ ds) % 2 ^ 32, start + length junk + suc (length ds))
unfolding read_uint32_from_string
read_uint32_from_string-digits s start junk c ds rest h hj hd hr =
    rw (← wrapped-value (2 ^ 32) 0 (c ∷ ds)) (
      scan_string-skip (suc (length s)) s start junk c ds rest h hj hd hr (
        omega (
          arith,
          ap length h,
          length-drop s start,
          length-append junk (c ∷ (ds ++ rest)),
          length-append ds rest,
        )))
