-- ===== src/Order/Advances.antt =====
-- How the states of nodes move on in a search.
use sunder.Prelude.{ℕ, ◌+◌, ◌≤◌, List, [], ◌∷◌, ◌≡◌, ◌≢◌, refl, ◌⊎◌, arith, length, length-set}
use sunder.Order.State.{ordering, ordered, ok, stop, Stop}
use sunder.Order.Graph.{Event, need, Dfs, state, put}
use sunder.Order.States.{
  count, left, left_count, get_or-set_ordered, left_count-set_le, left_count-set_seen,
}

pub ok_injective {ℓ} : {A : Type ℓ} {a b : A} → ok a ≡ ok b → a ≡ b
ok_injective h = cc

pub ok-ne-stop {ℓ} : {A : Type ℓ} {a : A} {e : Stop} → stop e ≢ ok a
ok-ne-stop h = cc

pub need_injective : {i j : ℕ} → need i ≡ need j → i ≡ j
need_injective h = cc

abbrev pub Among : Event → List Event → Type 0
Among e [] = ⊥
Among e (f ∷ es) = (f ≡ e) ⊎ Among e es

-- From `s` to `t` each node that is left either stays so or is put out, once.
pub record Advances (s t : Dfs) : Type 0 where
  pub conserved : (j : ℕ) → count j t.out + left (state t j) ≡ count j s.out + left (state s j)
  pub less_left : (j : ℕ) → left (state t j) ≤ left (state s j)
  pub fewer_left : left_count t.states ≤ left_count s.states
  pub same_total : length t.out + left_count t.states ≡ length s.out + left_count s.states
  pub keeps_ordered : (j : ℕ) → state s j ≡ ordered → state t j ≡ ordered
  pub keeps_ordering : (j : ℕ) → state t j ≡ ordering → state s j ≡ ordering
  pub same_length : length t.states ≡ length s.states

pub Advances-refl : (s : Dfs) → Advances s s
Advances-refl s = record {
  conserved = λ j. refl;
  less_left = λ j. omega arith;
  fewer_left = omega arith;
  same_total = refl;
  keeps_ordered = λ j h. h;
  keeps_ordering = λ j h. h;
  same_length = refl;
}

pub Advances-trans : {s t u : Dfs} → Advances s t → Advances t u → Advances s u
Advances-trans {s} {t} {u} a b = record {
  conserved = λ j. omega (arith, a.conserved j, b.conserved j);
  less_left = λ j. omega (arith, a.less_left j, b.less_left j);
  fewer_left = omega (arith, a.fewer_left, b.fewer_left);
  same_total = omega (arith, a.same_total, b.same_total);
  keeps_ordered = λ j h. b.keeps_ordered j (a.keeps_ordered j h);
  keeps_ordering = λ j h. a.keeps_ordering j (b.keeps_ordering j h);
  same_length = omega (arith, a.same_length, b.same_length);
}

pub Advances-mark : (i : ℕ) (s : Dfs) → left (state s i) ≡ 0 → Advances s (put i ordered s)
Advances-mark i s seen = record {
  conserved = λ j. ground (arith, get_or-set_ordered s.states i j);
  less_left = λ j. ground (arith, get_or-set_ordered s.states i j);
  fewer_left = left_count-set_le s.states i;
  same_total = omega (arith, left_count-set_seen s.states i seen);
  keeps_ordered = λ j h. ground (arith, get_or-set_ordered s.states i j);
  keeps_ordering = λ j h. ground (arith, get_or-set_ordered s.states i j);
  same_length = length-set s.states i ordered;
}
