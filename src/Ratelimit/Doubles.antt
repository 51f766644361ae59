-- ===== src/Ratelimit/Doubles.antt =====
-- The numbers that the limiter's script counts in, which are those of Lua: doubles.
use discord_support_hub.Prelude.{ℕ, ◌≤◌, Bool, true, false, ◌≡◌}

-- `of` is a whole number, and `ceil` and `floor` are read as whole numbers, 0 below 0.
pub record Numbers (N : Type 0) : Type 0 where
  pub of : ℕ → N
  pub add : N → N → N
  pub sub : N → N → N
  pub mul : N → N → N
  pub div : N → N → N
  pub min : N → N → N
  pub le : N → N → Bool
  pub floor : N → ℕ
  pub ceil : N → ℕ

-- What rounding keeps of the order: the sign of a result, and the order of the whole numbers.
pub record IsRounded {N : Type 0} (ns : Numbers N) : Type 0 where
  pub trans : (a b c : N) → ns.le a b ≡ true → ns.le b c ≡ true → ns.le a c ≡ true
  pub of_ordered : (m n : ℕ) → m ≤ n → ns.le (ns.of m) (ns.of n) ≡ true
  pub one_positive : ns.le (ns.of 1) (ns.of 0) ≡ false
  pub min_below : (a b : N) → ns.le (ns.min a b) b ≡ true
  pub add_signs :
      (a b : N)
      → ns.le a (ns.of 0) ≡ true
      → ns.le b (ns.of 0) ≡ true
      → ns.le (ns.add a b) (ns.of 0) ≡ true
  pub sub_signs : (a b : N) → ns.le a b ≡ true → ns.le (ns.sub a b) (ns.of 0) ≡ true
  pub mul_signs :
      (a b : N)
      → ns.le a (ns.of 0) ≡ true
      → ns.le (ns.of 0) b ≡ true
      → ns.le (ns.mul a b) (ns.of 0) ≡ true
  pub div_signs :
      (a b : N)
      → ns.le a (ns.of 0) ≡ true
      → ns.le (ns.of 0) b ≡ true
      → ns.le (ns.div a b) (ns.of 0) ≡ true
