-- ===== src/Base/Texts.antt =====
-- JavaScript strings, as the lists of their UTF-16 code units.
use Prim.Native.Nat.{ℕ}
use Prim.Native.Char.{code}
use Prim.Native.String.{String}
use mathlib.Core.Path.{◌≡◌, refl, sym, ap, ◌∙◌, subst}
use mathlib.Core.Bool.{Bool, false, ◌&&◌, ◌||◌}
use mathlib.Core.Logic.{inl, inr}
use mathlib.Core.List.{List, [], ◌∷◌, ◌++◌, reverse, reverse-reverse, reverse-append}
use native.Mathlib.Omega.{arith}
use native.Mathlib.Decide.{ℕ_discrete}
use understandproof.Base.Tests.{Eq, discrete_eq, leb, nat_eqb, if◌then◌else◌, Bool-cases}

abbrev pub Text : Type 0
Text = List ℕ

unfoldable pub Text-discrete : Discrete Text
unfolding ℕ_discrete
Text-discrete = hlevel ℕ_discrete

instance abbrev pub text_eq : Eq Text
text_eq = discrete_eq Text-discrete

-- The code units of an ASCII literal.
abbrev pub text : String → Text
text String.[] = []
text (String.◌∷◌ c s) = code c ∷ text s

-- The white space and line terminators that `String.prototype.trim` removes.
unfoldable pub is_space : ℕ → Bool
is_space c =
    leb 9 c && leb c 13
    || nat_eqb c 32
    || nat_eqb c 160
    || nat_eqb c 5760
    || leb 8192 c && leb c 8202
    || nat_eqb c 8232
    || nat_eqb c 8233
    || nat_eqb c 8239
    || nat_eqb c 8287
    || nat_eqb c 12288
    || nat_eqb c 65279

trim_start : Text → Text
trim_start [] = []
trim_start (c ∷ s) = if is_space c then trim_start s else c ∷ s

unfoldable pub trim : Text → Text
unfolding trim_start is_space
trim s = reverse (trim_start (reverse (trim_start s)))

trim_start_idem : (s : Text) → trim_start (trim_start s) ≡ trim_start s
unfolding trim_start
trim_start_idem [] = refl
trim_start_idem (c ∷ s) = ground (arith, trim_start_idem s)

-- The first code unit, if there is one, is no white space.
abbrev HasNoSpaceFirst : Text → Type 0
HasNoSpaceFirst [] = Unit
HasNoSpaceFirst (c ∷ s) = is_space c ≡ false

trim_start-HasNoSpaceFirst : (s : Text) → HasNoSpaceFirst (trim_start s)
unfolding trim_start
trim_start-HasNoSpaceFirst [] = tt
trim_start-HasNoSpaceFirst (c ∷ s) = elim (Bool-cases (is_space c)) [
  | inl h ↦ rw h (trim_start-HasNoSpaceFirst s)
  | inr h ↦ rw h h
]

trim_start-eq_self : (s : Text) → HasNoSpaceFirst s → trim_start s ≡ s
unfolding trim_start
trim_start-eq_self [] h = refl
trim_start-eq_self (c ∷ s) h = rw h

trim_start_suffix : (s : Text) → (w : Text) × (s ≡ w ++ trim_start s)
unfolding trim_start
trim_start_suffix [] = ([], refl)
trim_start_suffix (c ∷ s) = elim (Bool-cases (is_space c)) [
  | inl h ↦ (c ∷ (trim_start_suffix s).0, rw h (ap (λ t. c ∷ t) (trim_start_suffix s).1))
  | inr h ↦ ([], rw h)
]

HasNoSpaceFirst-prefix : (s t : Text) → HasNoSpaceFirst (s ++ t) → HasNoSpaceFirst s
HasNoSpaceFirst-prefix [] t h = tt
HasNoSpaceFirst-prefix (c ∷ s) t h = h

trim_end-HasNoSpaceFirst :
    (s : Text) → HasNoSpaceFirst s → HasNoSpaceFirst (reverse (trim_start (reverse s)))
trim_end-HasNoSpaceFirst s h =
    let (w, e) = trim_start_suffix (reverse s) in
    let split : s ≡ reverse (trim_start (reverse s)) ++ reverse w =
      sym (reverse-reverse s) ∙ ap reverse e ∙ reverse-append w _ in
    HasNoSpaceFirst-prefix _ (reverse w) (subst HasNoSpaceFirst split h)

-- Trimming a second time changes nothing.
pub trim_idem : (s : Text) → trim (trim s) ≡ trim s
unfolding trim
trim_idem s =
    ap (λ t. reverse (trim_start (reverse t)))
      (trim_start-eq_self (trim s)
        (trim_end-HasNoSpaceFirst (trim_start s) (trim_start-HasNoSpaceFirst s)))
    ∙ ap (λ t. reverse (trim_start t)) (reverse-reverse (trim_start (reverse (trim_start s))))
    ∙ ap reverse (trim_start_idem (reverse (trim_start s)))
