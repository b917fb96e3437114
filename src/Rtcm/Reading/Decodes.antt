-- ===== src/Rtcm/Reading/Decodes.antt =====
-- Fields that an encoder has put into a buffer, one behind the other, are read back by a chain of
-- reads.
use rtcmbridge.Base.{
  ℕ, suc, ◌^◌, ◌≤◌, ◌<◌, ◌≡◌, refl, ap, sym, ◌∙◌, Option, none, some, List, [], ◌++◌, arith, length,
  append_assoc, length-append, ◌+◌, le→ltb_false,
}
use rtcmbridge.Base.Int.{ℤ}
use rtcmbridge.Rtcm.BitReader.{BitReader, get_u, get_s, skip}
use rtcmbridge.Rtcm.BitReader.Bits.{to_bits}
use rtcmbridge.Rtcm.BitReader.Value.{IsValid, advance, advance-IsValid}
use rtcmbridge.Rtcm.BitReader.Fields.{
  Holds, length-to_bits, get_u-to_bits, get_s-to_bits, pattern_of, InSigned, Holds-fits,
}
use rtcmbridge.Rtcm.Reading.{Read, ◌>>=◌, return, skip_bits}

-- A valid reader at whose place the bits stand.
pub record At (br : BitReader) (field : List ℕ) : Type 0 where
  pub valid : IsValid br
  pub holds : Holds br field

first : (br : BitReader) (xs ys : List ℕ) → Holds br (xs ++ ys) → Holds br xs
first br xs ys h = record {
  before = h.before;
  after = ys ++ h.after;
  splits = h.splits ∙ ap (λ (t : List ℕ). h.before ++ t) (append_assoc xs ys h.after);
  here = h.here;
}

after_field :
    (br : BitReader) (xs ys : List ℕ) (n : ℕ)
    → length xs ≡ n
    → At br (xs ++ ys)
    → At (advance br n) ys
after_field br xs ys n e a =
    let h = a.holds in
    record {
      valid =
          advance-IsValid n br a.valid
            (omega (arith, Holds-fits br xs a.valid (first br xs ys h), e));
      holds = record {
        before = h.before ++ xs;
        after = h.after;
        splits =
            h.splits
            ∙ ap (λ (t : List ℕ). h.before ++ t) (append_assoc xs ys h.after)
            ∙ sym (append_assoc h.before xs (ys ++ h.after));
        here = omega (arith, h.here, e, length-append h.before xs);
      };
    }

-- Where `field` stands, `m` reads `a` from it and stops behind it.
pub record Decodes {A : Type 0} (m : Read A) (field : List ℕ) (a : A) : Type 0 where
  pub run :
      (br : BitReader) (rest : List ℕ)
      → At br (field ++ rest)
      → (br' : BitReader) × (m br ≡ some (a, br')) × At br' rest

pub get_u-Decodes : (n x : ℕ) → n ≤ 64 → x < 2 ^ n → Decodes (get_u n) (to_bits n x) x
get_u-Decodes n x w f = record {
  run = λ br rest a. (
    advance br n,
    get_u-to_bits n x br a.valid w f (first br (to_bits n x) rest a.holds),
    after_field br (to_bits n x) rest n (length-to_bits n x) a,
  );
}

pub get_s-Decodes :
    (m : ℕ) (z : ℤ)
    → m < 63
    → InSigned (suc m) z
    → Decodes (get_s (suc m)) (to_bits (suc m) (pattern_of (suc m) z)) z
get_s-Decodes m z w f =
    let field = to_bits (suc m) (pattern_of (suc m) z) in
    record {
      run = λ br rest a. (
        advance br (suc m),
        get_s-to_bits m z br a.valid w f (first br field rest a.holds),
        after_field br field rest (suc m) (length-to_bits (suc m) (pattern_of (suc m) z)) a,
      );
    }

-- Reserved bits, whatever they are.
pub skip-Decodes : (n : ℕ) (field : List ℕ) → length field ≡ n → Decodes (skip_bits n) field tt
unfolding skip
skip-Decodes n field e = record {
  run = λ br rest a.
      let fits : br.bitpos + n ≤ br.total_bits =
        omega (arith, e, Holds-fits br field a.valid (first br field rest a.holds)) in
      (
        advance br n,
        rw (skip_bits, skip, le→ltb_false (br.bitpos + n) br.total_bits fits) refl,
        after_field br field rest n e a,
      );
}

pub regroup :
    (br : BitReader) (f g rest : List ℕ) → At br ((f ++ g) ++ rest) → At br (f ++ (g ++ rest))
regroup br f g rest a = rw (append_assoc f g rest) at a

chained :
    {A B : Type 0} (r : Option (A × BitReader)) (k : A → Read B) {a : A} {br1 : BitReader}
    {done : Option (B × BitReader)}
    → r ≡ some (a, br1)
    → k a br1 ≡ done
    → elim r [ none ↦ none | some (x, br') ↦ k x br' ] ≡ done
chained r k p q = rw p q

pub >>=-Decodes :
    {A B : Type 0} {m : Read A} (k : A → Read B) {f g : List ℕ} {a : A} {b : B}
    → Decodes m f a
    → Decodes (k a) g b
    → Decodes (m >>= k) (f ++ g) b
>>=-Decodes {m = m} k {f = f} {g = g} d e = record {
  run = λ br rest a.
      let (br1, p, a1) = d.run br (g ++ rest) (regroup br f g rest a) in
      let (br2, q, a2) = e.run br1 rest a1 in (br2, chained (m br) k p q, a2);
}

pub return-Decodes : {A : Type 0} (a : A) → Decodes (return a) [] a
return-Decodes a = record { run = λ br rest at_rest. (br, refl, at_rest) }
