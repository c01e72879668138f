-- ===== src/Board/Position/Components.antt =====
-- Chains of stones of one color, and the growth of a string along them.
use gnugo.Base.{ℕ, ◌≡◌, ◌≢◌, ◌⊎◌, inl, inr, refl, sym, ◌∙◌, ◌==◌, Bool-cases, ==→≡, ==→≢}
use gnugo.Color.{gray}
use gnugo.Point.{Direction, step}
use gnugo.Board.State.{Board, minus_one, number_at}

module _ (points : ℕ → ℕ) where
  -- Two stones that are beside each other, `r` on the board and of the same color.
  abbrev pub Allied : ℕ → ℕ → Type 0
  Allied q r = (points r ≢ gray) × (points r ≡ points q)

  -- A chain of allied stones.
  pub data Connected (p : ℕ) : ℕ → Type 0 where
    here : Connected p p
    onward : (q : ℕ) (d : Direction) → Connected p q → Allied q (step d q) → Connected p (step d q)

  pub before :
      (p : ℕ) (d : Direction) (q : ℕ) → Allied p (step d p) → Connected (step d p) q → Connected p q
  before p d q first here = onward p d here first
  before p d q first (onward r e chain next) = onward r e (before p d r first chain) next

  -- The neighbors of `q` of the same color have numbers.
  abbrev pub Closed : ℕ → Board → Type 0
  Closed q b = (d : Direction) → Allied q (step d q) → number_at (step d q) b ≢ minus_one

  -- Stones that are connected to `root` get the number `s`.
  pub record Grows (s root : ℕ) (b b' : Board) : Type 0 where
    pub stones : b'.board ≡ points
    pub numbers :
        (q : ℕ)
        → (number_at q b' ≡ number_at q b)
          ⊎ (number_at q b ≡ minus_one) × (number_at q b' ≡ s) × Connected root q
    pub closed : (q : ℕ) → number_at q b ≡ minus_one → number_at q b' ≢ minus_one → Closed q b'

  -- A number that is there stays.
  pub numbered :
      {s root : ℕ} {b b' : Board}
      → Grows s root b b'
      → (q : ℕ) → number_at q b ≢ minus_one
      → number_at q b' ≡ number_at q b
  numbered g q some = elim (g.numbers q) [ inl same ↦ same | inr (none, n, c) ↦ absurd (some none) ]

  pub Grows-refl : (s root : ℕ) (b : Board) → b.board ≡ points → Grows s root b b
  Grows-refl s root b e = record {
    stones = e;
    numbers = λ q. inl refl;
    closed = λ q none some. absurd (some none);
  }

  pub Grows-trans :
      (s root : ℕ) (a b c : Board)
      → s ≢ minus_one
      → Grows s root a b
      → Grows s root b c
      → Grows s root a c
  Grows-trans s root a b c some g h = record {
    stones = h.stones;
    numbers = λ q. elim (g.numbers q) [
      | inl same ↦ elim (h.numbers q) [
        | inl same' ↦ inl (same' ∙ same)
        | inr (none, n, chain) ↦ inr (sym same ∙ none, n, chain)
      ]
      | inr (none, n, chain) ↦ inr (none, numbered h q (λ e. some (sym n ∙ e)) ∙ n, chain)
    ];
    closed = λ q none later. elim (Bool-cases (number_at q b == minus_one)) [
      | inl still ↦ h.closed q (==→≡ _ _ still) later
      | inr new ↦ λ d ally e.
          let old = g.closed q none (==→≢ _ _ new) d ally in
          old (sym (numbered h (step d q) old) ∙ e)
    ];
  }
