-- ===== src/Roster/Layers.antt =====
-- pipeline/roster.ts: a layer of the tree and the next one: every node, its sibling and their parent.
use proofmark.Prelude.{
  ℕ, zero, suc, ◌+◌, ◌/◌, ◌%◌, ◌≤◌, ◌<◌, ◌≡◌, refl, List, [], ◌∷◌, arith, ltb, ◌==◌, if◌then◌else◌,
  length, Result, ok, Yields, returns, after, yielded,
}
use proofmark.Prelude.Text.{Text}
use proofmark.Ethers.{Ethers}
use proofmark.Roster.{element, hash_node, next_layer}
use proofmark.Roster.Proof.{pair_index, sibling}

pair_index-suc : (i : ℕ) → pair_index (suc (suc i)) ≡ suc (suc (pair_index i))
pair_index-suc i = ground arith

element_cons : {A : Type 0} (x : A) (xs : List A) (i : ℕ) → element (x ∷ xs) (suc i) ≡ element xs i
element_cons x xs i = refl

-- The place where the sibling stands.
abbrev place : List Text → ℕ → ℕ
place layer idx = if ltb (pair_index idx) (length layer) then pair_index idx else idx

place-suc :
    (x y : Text) (zs : List Text) (i : ℕ)
    → place (x ∷ y ∷ zs) (suc (suc i)) ≡ suc (suc (place zs i))
place-suc x y zs i = ground (arith, pair_index-suc i)

sibling-suc :
    (x y : Text) (zs : List Text) (i : ℕ) → sibling (x ∷ y ∷ zs) (suc (suc i)) ≡ sibling zs i
unfolding sibling
sibling-suc x y zs i = rw (place-suc x y zs i)

half_suc : (i : ℕ) → suc (suc i) / 2 ≡ suc (i / 2)
half_suc i = omega arith

module _ (e : Ethers) where
  -- The hash of a node with its sibling, in the order of their positions.
  abbrev pub hash_pair : ℕ → Text → Text → Result Text
  hash_pair idx child sib = if idx % 2 == 0 then hash_node e child sib else hash_node e sib child

  hash_pair-suc :
      (i : ℕ) (child sib : Text) → hash_pair (suc (suc i)) child sib ≡ hash_pair i child sib
  hash_pair-suc i child sib = ground arith

  -- Position `idx` of a layer, its sibling, and their parent in the next layer.
  pub record Family (cur next : List Text) (idx : ℕ) : Type 0 where
    pub child : Text
    pub sib : Text
    pub parent : Text
    pub child_at : element cur idx ≡ ok child
    pub sib_at : sibling cur idx ≡ ok sib
    pub hashed : hash_pair idx child sib ≡ ok parent
    pub parent_at : element next (idx / 2) ≡ ok parent
    pub alone : length cur ≤ pair_index idx → sib ≡ child

  abbrev pub Families : List Text → List Text → Type 0
  Families cur next = (idx : ℕ) → idx < length cur → Family cur next idx

  single : (x h : Text) → hash_node e x x ≡ ok h → Families (x ∷ []) (h ∷ [])
  unfolding sibling
  single x h p zero l = record {
    child = x;
    sib = x;
    parent = h;
    child_at = refl;
    sib_at = refl;
    hashed = p;
    parent_at = refl;
    alone = λ _. refl;
  }
  single x h p (suc i) l = absurd (omega arith)

  double :
      (x y h : Text) (zs rest : List Text)
      → hash_node e x y ≡ ok h
      → Families zs rest
      → Families (x ∷ y ∷ zs) (h ∷ rest)
  unfolding sibling
  double x y h zs rest p f zero l = record {
    child = x;
    sib = y;
    parent = h;
    child_at = refl;
    sib_at = ground arith;
    hashed = p;
    parent_at = refl;
    alone = λ q. absurd (omega arith);
  }
  double x y h zs rest p f (suc zero) l = record {
    child = y;
    sib = x;
    parent = h;
    child_at = refl;
    sib_at = ground arith;
    hashed = p;
    parent_at = refl;
    alone = λ q. absurd (omega arith);
  }
  double x y h zs rest p f (suc (suc i)) l =
      let g = f i (omega arith) in
      record {
        child = g.child;
        sib = g.sib;
        parent = g.parent;
        child_at = g.child_at;
        sib_at = rw (sibling-suc x y zs i) g.sib_at;
        hashed = rw (hash_pair-suc i g.child g.sib) g.hashed;
        parent_at = rw (half_suc i) g.parent_at;
        alone = λ q. g.alone (omega (arith, pair_index-suc i));
      }

  pub next_layer-Families : (cur : List Text) → Yields (Families cur) (next_layer e cur)
  unfolding next_layer
  next_layer-Families [] = returns (λ idx l. absurd (omega arith))
  next_layer-Families (x ∷ []) = after (hash_node e x x) λ h p. returns (single x h p)
  next_layer-Families (x ∷ y ∷ zs) = after (hash_node e x y) λ h p.
      after (next_layer e zs)
        λ rest q. returns (double x y h zs rest p (yielded (next_layer-Families zs) q))

  pub next_layer-length :
      (cur : List Text) → Yields (λ next. length next ≡ (length cur + 1) / 2) (next_layer e cur)
  unfolding next_layer
  next_layer-length [] = returns (omega arith)
  next_layer-length (x ∷ []) = after (hash_node e x x) λ h p. returns (omega arith)
  next_layer-length (x ∷ y ∷ zs) = after (hash_node e x y) λ h p.
      after (next_layer e zs) λ rest q. returns (omega (arith, yielded (next_layer-length zs) q))
