-- ===== src/Worker/Store/Checkpoints.antt =====
-- worker/store.ts: chains of source checkpoints with ascending heights.
use proofmark.Prelude.{
  ℕ, zero, suc, ◌+◌, ◌-◌, ◌≤◌, ◌<◌, Bool, true, ◌≡◌, refl, inl, inr, arith, Bool-cases, ltb, leb,
  ◌==◌, ==→eq, tests, List, [], ◌∷◌, ◌++◌, any, filter, length, length-drop, drop,
}
use proofmark.Worker.Job.{SourceCheckpoint}
use proofmark.Worker.Store.Source.{trim_checkpoints}

-- The heights ascend strictly and the last one is `h`.
abbrev pub AscendsTo : ℕ → List SourceCheckpoint → Type 0
AscendsTo h [] = ⊥
AscendsTo h (c ∷ []) = c.height ≡ h
AscendsTo h (c ∷ c' ∷ cs) = (c.height < c'.height) × AscendsTo h (c' ∷ cs)

pub ascends-append :
    (h : ℕ) (cs : List SourceCheckpoint) (e : SourceCheckpoint)
    → AscendsTo h cs
    → h < e.height
    → AscendsTo e.height (cs ++ e ∷ [])
ascends-append h (c ∷ []) e a l = (omega arith, refl)
ascends-append h (c ∷ c' ∷ cs) e a l = (a.0, ascends-append h (c' ∷ cs) e a.1 l)
ascends-append h [] e a l = absurd a

-- Dropping a beginning, but not all, and putting the first checkpoint back.
ascends-skip :
    (h n : ℕ) (c c' : SourceCheckpoint) (cs : List SourceCheckpoint)
    → c.height < c'.height
    → AscendsTo h (c' ∷ cs)
    → n ≤ length cs
    → AscendsTo h (c ∷ drop n (c' ∷ cs))
ascends-skip h zero c c' cs l a b = (l, a)
ascends-skip h (suc n) c c' [] l a b = absurd (omega arith)
ascends-skip h (suc n) c c' (c'' ∷ cs) l a b =
    ascends-skip h n c c'' cs (omega arith) a.1 (omega arith)

pub trim-AscendsTo :
    (h : ℕ) (cs : List SourceCheckpoint) → AscendsTo h cs → AscendsTo h (trim_checkpoints cs)
unfolding trim_checkpoints
trim-AscendsTo h [] a = a
trim-AscendsTo h (c ∷ []) a = a
trim-AscendsTo h (c ∷ c' ∷ cs) a = elim (Bool-cases (ltb 129 (length (c ∷ c' ∷ cs)))) [
  | inl e ↦
      let long : 129 < length (c ∷ c' ∷ cs) = omega tests in
      let first : suc (suc (length cs)) - 128 ≡ suc (length cs + 1 - 128) = omega arith in
      rw (e, first) (ascends-skip h (length cs + 1 - 128) c c' cs a.0 a.1 (omega arith))
  | inr e ↦ rw e a
]

pub trim-length : (cs : List SourceCheckpoint) → length (trim_checkpoints cs) ≤ 129
unfolding trim_checkpoints
trim-length [] = omega arith
trim-length (c ∷ cs) = elim (Bool-cases (ltb 129 (length (c ∷ cs)))) [
  | inl e ↦ rw e (omega (tests, length-drop {0} (length (c ∷ cs) - 128) (c ∷ cs)))
  | inr e ↦ rw e (ground arith)
]

ascends-first-le :
    (h b : ℕ) (c : SourceCheckpoint) (cs : List SourceCheckpoint)
    → AscendsTo h (c ∷ cs)
    → any (λ x. x.height == b) (c ∷ cs) ≡ true
    → c.height ≤ b
ascends-first-le h b c [] a e = ground arith
ascends-first-le h b c (c' ∷ cs) a e = ground (arith, ascends-first-le h b c' cs a.1)

filter-above :
    (h b : ℕ) (c : SourceCheckpoint) (cs : List SourceCheckpoint)
    → AscendsTo h (c ∷ cs)
    → b ≤ c.height
    → filter (λ x. leb x.height b) cs ≡ []
unfolding filter
filter-above h b c [] a l = refl
filter-above h b c (c' ∷ cs) a l = ground (arith, filter-above h b c' cs a.1 (omega arith))

ascends-filter_here :
    (h b : ℕ) (c : SourceCheckpoint) (cs : List SourceCheckpoint)
    → AscendsTo h (c ∷ cs)
    → c.height ≡ b
    → AscendsTo b (c ∷ filter (λ x. leb x.height b) cs)
ascends-filter_here h b c cs a e = rw (filter-above h b c cs a (omega arith)) e

-- What is left at or below the height of a checkpoint of the chain ends at that checkpoint.
ascends-filter :
    (h b : ℕ) (c : SourceCheckpoint) (cs : List SourceCheckpoint)
    → AscendsTo h (c ∷ cs)
    → any (λ x. x.height == b) (c ∷ cs) ≡ true
    → AscendsTo b (c ∷ filter (λ x. leb x.height b) cs)
unfolding filter
ascends-filter h b c [] a e = ground arith
ascends-filter h b c (c' ∷ cs) a e = elim (Bool-cases (c.height == b)) [
  | inl same ↦ ascends-filter_here h b c (c' ∷ cs) a (==→eq _ _ same)
  | inr other ↦
      let later : any (λ x. x.height == b) (c' ∷ cs) ≡ true = ground arith in
      let low : leb c'.height b ≡ true = ground (arith, ascends-first-le h b c' cs a.1 later) in
      rw low (a.0, ascends-filter h b c' cs a.1 later)
]

pub filter-length :
    (p : SourceCheckpoint → Bool) (cs : List SourceCheckpoint) → length (filter p cs) ≤ length cs
unfolding filter
filter-length p [] = omega arith
filter-length p (c ∷ cs) = ground (arith, filter-length p cs)

pub cut-AscendsTo :
    (h b : ℕ) (cs : List SourceCheckpoint)
    → AscendsTo h cs
    → any (λ x. x.height == b) cs ≡ true
    → AscendsTo b (filter (λ x. leb x.height b) cs)
unfolding filter
cut-AscendsTo h b [] a e = absurd a
cut-AscendsTo h b (c ∷ cs) a e =
    let low : leb c.height b ≡ true = ground (arith, ascends-first-le h b c cs a e) in
    rw low (ascends-filter h b c cs a e)
