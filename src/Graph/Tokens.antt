-- ===== src/Graph/Tokens.antt =====
-- `normalize_rel` of store.py: relationship types as tokens that can stand in a query.
use n_quark.Prelude.{
  ℕ, ◌≡◌, refl, String, Bool, true, false, not, ◌&&◌, ◌||◌, List, [], ◌∷◌, map, arith,
  if◌then◌else◌, leb, ◌==◌, codes, is_nil, Every, if_ind,
}

-- [A-Z0-9_]
abbrev is_token_code : ℕ → Bool
is_token_code c = leb b'A' c && leb c b'Z' || leb b'0' c && leb c b'9' || c == b'_'

-- `_REL_RE.sub("_", …)`
sanitized : ℕ → ℕ
sanitized c = if is_token_code c then c else b'_'

left_stripped : List ℕ → List ℕ
left_stripped [] = []
left_stripped (c ∷ cs) = let later = left_stripped cs in if c == b'_' then later else c ∷ cs

right_stripped : List ℕ → List ℕ
right_stripped [] = []
right_stripped (c ∷ cs) =
    let later = right_stripped cs in if c == b'_' && is_nil later then [] else c ∷ later

-- `canon` stands for `relationship.strip().upper()`.
unfoldable pub normalize_rel : (String → String) → String → List ℕ
unfolding sanitized left_stripped right_stripped
normalize_rel canon relationship =
    let token = right_stripped (left_stripped (map sanitized (codes (canon relationship)))) in
    if is_nil token then codes "RELATED_TO" else token

abbrev clean_start : List ℕ → Bool
clean_start [] = true
clean_start (c ∷ cs) = not (c == b'_')

abbrev clean_end : List ℕ → Bool
clean_end [] = true
clean_end (c ∷ cs) = let later = clean_end cs in if is_nil cs then not (c == b'_') else later

pub record IsToken (cs : List ℕ) : Type 0 where
  pub nonempty : is_nil cs ≡ false
  pub safe : Every (λ c. is_token_code c ≡ true) cs
  pub starts : clean_start cs ≡ true
  pub ends : clean_end cs ≡ true

sanitized-IsToken : (c : ℕ) → is_token_code (sanitized c) ≡ true
unfolding sanitized
sanitized-IsToken c = ground arith

map-sanitized : (cs : List ℕ) → Every (λ c. is_token_code c ≡ true) (map sanitized cs)
map-sanitized [] = tt
map-sanitized (c ∷ cs) = (sanitized-IsToken c, map-sanitized cs)

left_stripped-Every : (P : ℕ → Type 0) (cs : List ℕ) → Every P cs → Every P (left_stripped cs)
unfolding left_stripped
left_stripped-Every P [] h = tt
left_stripped-Every P (c ∷ cs) h = ground (arith, left_stripped-Every P cs h.1)

right_stripped-Every : (P : ℕ → Type 0) (cs : List ℕ) → Every P cs → Every P (right_stripped cs)
unfolding right_stripped
right_stripped-Every P [] h = tt
right_stripped-Every P (c ∷ cs) h = ground (arith, right_stripped-Every P cs h.1)

left_stripped_start : (cs : List ℕ) → clean_start (left_stripped cs) ≡ true
unfolding left_stripped
left_stripped_start [] = refl
left_stripped_start (c ∷ cs) = ground (arith, left_stripped_start cs)

right_stripped_start :
    (cs : List ℕ) → clean_start cs ≡ true → clean_start (right_stripped cs) ≡ true
unfolding right_stripped
right_stripped_start [] h = refl
right_stripped_start (c ∷ cs) h = ground (arith, h)

right_stripped_end : (cs : List ℕ) → clean_end (right_stripped cs) ≡ true
unfolding right_stripped
right_stripped_end [] = refl
right_stripped_end (c ∷ cs) = ground (arith, right_stripped_end cs)

related_to-IsToken : IsToken (codes "RELATED_TO")
related_to-IsToken = record { nonempty = refl; safe = ground arith; starts = refl; ends = refl }

stripped-IsToken :
    (cs : List ℕ)
    → is_nil (right_stripped (left_stripped (map sanitized cs))) ≡ false
    → IsToken (right_stripped (left_stripped (map sanitized cs)))
stripped-IsToken cs h =
    let all = left_stripped-Every (λ c. is_token_code c ≡ true) _ (map-sanitized cs) in
    record {
      nonempty = h;
      safe = right_stripped-Every (λ c. is_token_code c ≡ true) _ all;
      starts = right_stripped_start _ (left_stripped_start (map sanitized cs));
      ends = right_stripped_end (left_stripped (map sanitized cs));
    }

-- Whatever `strip` and `upper` make of a relationship, its token can be inlined into a query: it
-- is not empty, has nothing but A to Z, 0 to 9 and _, and neither starts nor ends with _.
pub normalize_rel-IsToken :
    (canon : String → String) (relationship : String) → IsToken (normalize_rel canon relationship)
unfolding normalize_rel
normalize_rel-IsToken canon relationship =
    if_ind IsToken
      (is_nil (right_stripped (left_stripped (map sanitized (codes (canon relationship))))))
      (λ _. related_to-IsToken) (stripped-IsToken (codes (canon relationship)))
