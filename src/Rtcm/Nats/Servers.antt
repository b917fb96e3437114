-- ===== src/Rtcm/Nats/Servers.antt =====
-- split_csv of src/rtcm_decoder_nats.cpp against the list that was written.
use rtcmbridge.Base.{
  ℕ, zero, suc, ◌+◌, ◌<◌, ◌≡◌, ◌≢◌, refl, sym, ap, ◌∙◌, none, some, List, [], ◌∷◌, ◌++◌, arith,
  Bytes, codes, length, take, drop, All, length-append, take-append_length, drop-append_length,
  append_assoc, append-nil, drop_add,
}
use rtcmbridge.Base.Text.{find}
use rtcmbridge.Rtcm.Nats.{push_back, split_loop, split_csv}

-- The items with commas between them.
abbrev pub comma_joined : Bytes → List Bytes → Bytes
comma_joined p [] = p
comma_joined p (q ∷ ps) = p ++ (44 ∷ comma_joined q ps)

abbrev pub LacksComma : Bytes → Type 0
LacksComma = All (λ c. c ≢ 44)

-- The items that are not empty.
abbrev pub non_empty : List Bytes → List Bytes
non_empty [] = []
non_empty ([] ∷ ps) = non_empty ps
non_empty ((c ∷ p) ∷ ps) = (c ∷ p) ∷ non_empty ps

find-comma : (p rest : Bytes) → LacksComma p → find (codes ",") (p ++ (44 ∷ rest)) ≡ some (length p)
unfolding find
find-comma [] rest h = refl
find-comma (c ∷ p) rest h = ground (arith, find-comma p rest h.1)

find-no_comma : (p : Bytes) → LacksComma p → find (codes ",") p ≡ none
unfolding find
find-no_comma [] h = refl
find-no_comma (c ∷ p) h = ground (arith, find-no_comma p h.1)

push_back_lem :
    (p : Bytes) (ps out : List Bytes) → push_back p out ++ non_empty ps ≡ out ++ non_empty (p ∷ ps)
unfolding push_back
push_back_lem [] ps out = refl
push_back_lem (c ∷ p) ps out = append_assoc out ((c ∷ p) ∷ []) (non_empty ps)

split_loop-joined :
    (fuel : ℕ) (p : Bytes) (ps out : List Bytes)
    → LacksComma p
    → All LacksComma ps
    → length (comma_joined p ps) < fuel
    → split_loop fuel (comma_joined p ps) out ≡ out ++ non_empty (p ∷ ps)
unfolding split_loop
split_loop-joined zero p ps out h hs enough = elim enough [ ]
split_loop-joined (suc fuel) p [] out h hs enough =
    rw (find-no_comma p h, split_loop) (sym (append-nil (push_back p out)) ∙ push_back_lem p [] out)
split_loop-joined (suc fuel) p (q ∷ ps) out h hs enough =
    let rest = comma_joined q ps in
    let item : take (length p) (p ++ (44 ∷ rest)) ≡ p = take-append_length p (44 ∷ rest) in
    let behind : drop (length p + 1) (p ++ (44 ∷ rest)) ≡ rest =
      drop_add (length p) 1 (p ++ (44 ∷ rest)) ∙ ap (drop 1) (drop-append_length p (44 ∷ rest)) in
    let fewer : length rest < fuel = omega (arith, length-append p (44 ∷ rest)) in
    rw (find-comma p rest h, split_loop, item, behind)
      (split_loop-joined fuel q ps (push_back p out) hs.0 hs.1 fewer ∙ push_back_lem p (q ∷ ps) out)

-- split_csv takes a list of servers with commas between them apart into exactly those that are not
-- empty, in order. Every text is such a list, so that this says what split_csv does with any text.
pub split_csv-joined :
    (p : Bytes) (ps : List Bytes)
    → LacksComma p
    → All LacksComma ps
    → split_csv (comma_joined p ps) ≡ non_empty (p ∷ ps)
unfolding split_csv
split_csv-joined p ps h hs = split_loop-joined _ p ps [] h hs (omega arith)
