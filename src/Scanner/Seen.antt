-- ===== src/Scanner/Seen.antt =====
-- The directories that a scan of internal/scanner/scanner.go has seen, and results within bounds.
use fsrecon.Prelude.{
  ℕ, ◌<◌, ◌≤◌, ◌≡◌, refl, Bool, true, false, not, Str, Option, none, some, List, [], ◌∷◌,
  str_eq_iff, elem, keep, length, Result, ok, err, ◌>>=◌, if◌then◌else◌, arith,
}
use fsrecon.Scanner.Walk.{
  ScannerError, file_error, err_symlink, callback_failed, out_of_fuel, Walk, Resolved, skipped,
  refused, resolved,
}

-- How many identities of a list were not seen yet?
abbrev pub unseen : List Str → List Str → ℕ
unseen ids seen = length (keep (λ i. not (elem i seen)) ids)

unseen-cons-le :
    (ids : List Str) (id : Str) (seen : List Str) → unseen ids (id ∷ seen) ≤ unseen ids seen
unfolding elem
unseen-cons-le [] id seen = omega arith
unseen-cons-le (i ∷ ids) id seen = ground (arith, unseen-cons-le ids id seen)

pub unseen-cons :
    (ids : List Str) (id : Str) (seen : List Str)
    → elem id ids ≡ true
    → elem id seen ≡ false
    → unseen ids (id ∷ seen) < unseen ids seen
unfolding elem
unseen-cons [] id seen h k = ground arith
unseen-cons (i ∷ ids) id seen h k = ground (
  arith,
  unseen-cons ids id seen,
  unseen-cons-le ids id seen,
  str_eq_iff i id,
  str_eq_iff id i,
  str_eq_iff id id,
)

-- The fuel is not what ends a walk.
abbrev IsDone : {E G : Type 0} → ScannerError E G → Type 0
IsDone (file_error e) = Unit {0}
IsDone (err_symlink p) = Unit {0}
IsDone (callback_failed e) = Unit {0}
IsDone out_of_fuel = ⊥

abbrev pub Ends : {E G A : Type 0} → Result (ScannerError E G) (Walk A) → Type 0
Ends (ok w) = Unit {0}
Ends (err e w) = IsDone e

-- Links are followed, and at most so many identities are left.
abbrev pub Below : List Str → ℕ → Option (List Str) → Type 0
Below ids k none = ⊥
Below ids k (some seen) = unseen ids seen ≤ k

abbrev pub Bounded : {E G A : Type 0} → List Str → ℕ → Result (ScannerError E G) (Walk A) → Type 0
Bounded ids k (ok w) = Below ids k w.seen
Bounded ids k (err e w) = IsDone e

Below-le :
    (ids : List Str) (j k : ℕ) (o : Option (List Str)) → j ≤ k → Below ids j o → Below ids k o
Below-le ids j k none h b = b
Below-le ids j k (some seen) h b = omega (arith, h, b)

pub Bounded-le :
    {E G A : Type 0} (ids : List Str) (j k : ℕ) (r : Result (ScannerError E G) (Walk A))
    → j ≤ k
    → Bounded ids j r
    → Bounded ids k r
Bounded-le ids j k (ok w) h b = Below-le ids j k w.seen h b
Bounded-le ids j k (err e w) h b = b

pub Bounded-bind :
    {E G A : Type 0} (ids : List Str) (k : ℕ) (r : Result (ScannerError E G) (Walk A))
    (f : Walk A → Result (ScannerError E G) (Walk A))
    → Bounded ids k r
    → ((w : Walk A) → Below ids k w.seen → Bounded ids k (f w))
    → Bounded ids k (r >>= f)
Bounded-bind ids k (ok w) f b h = h w b
Bounded-bind ids k (err e w) f b h = b

pub Bounded-Ends :
    {E G A : Type 0} (ids : List Str) (k : ℕ) (r : Result (ScannerError E G) (Walk A))
    → Bounded ids k r
    → Ends r
Bounded-Ends ids k (ok w) b = tt
Bounded-Ends ids k (err e w) b = b

pub Bounded-if :
    {E G A : Type 0} (ids : List Str) (k : ℕ) (c : Bool) (r q : Result (ScannerError E G) (Walk A))
    → (c ≡ true → Bounded ids k r)
    → (c ≡ false → Bounded ids k q)
    → Bounded ids k (if c then r else q)
Bounded-if ids k true r q h g = h refl
Bounded-if ids k false r q h g = g refl

abbrev pub IsFine : {E G : Type 0} → Resolved E G → Type 0
IsFine skipped = Unit {0}
IsFine (refused e) = IsDone e
IsFine (resolved info followed) = Unit {0}

pub skip-IsFine :
    {E : Type 0} (G : Type 0) (c : Bool) (e : E)
    → IsFine {E = E} {G = G} (if c then skipped else refused (file_error e))
skip-IsFine G true e = tt
skip-IsFine G false e = tt
