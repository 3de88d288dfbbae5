-- ===== src/Repos/Table.antt =====
-- A DynamoDB table as its clients see it, and the conditional operations that
-- python/shim-service/src/repos/aws/abstract_repo.py builds on it. The service is not part of the
-- program: it is a parameter, with its documented behaviour as laws.
use shim_service.Base.{
  ◌≡◌, refl, Bool, true, false, ◌&&◌, Option, none, some, Eq, ◌==◌, if◌then◌else◌,
}

-- Consistent reads and conditional writes of whole items. A write tells whether its condition held;
-- where it did not, the service raises `ConditionalCheckFailedException`.
pub record Table (K R : Type 0) : Type 1 where
  pub State : Type 0
  pub get_item : State → K → Option R
  pub put_new : State → K → R → State × Bool
  pub update_if : State → K → (R → Bool) → (R → R) → State × Bool
  pub delete_if : State → K → (R → Bool) → State × Bool

abbrev pub is_none {ℓ} : {A : Type ℓ} → Option A → Bool
is_none none = true
is_none (some a) = false

-- A condition on an item's attributes fails where there is no item.
abbrev pub holds {ℓ} : {A : Type ℓ} → (A → Bool) → Option A → Bool
holds p none = false
holds p (some r) = p r

abbrev pub on_item {ℓ} : {A : Type ℓ} → (A → A) → Option A → Option A
on_item f none = none
on_item f (some r) = some (f r)

pub record IsLawful {K R : Type 0} ⦃e : Eq K⦄ (t : Table K R) : Type 0 where
  pub put_new_ok : (s : t.State) (k : K) (r : R) → (t.put_new s k r).1 ≡ is_none (t.get_item s k)
  pub get-put_new :
      (s : t.State) (k : K) (r : R) (j : K)
      → t.get_item (t.put_new s k r).0 j
        ≡ (if (j == k) && is_none (t.get_item s k) then some r else t.get_item s j)
  pub update_if_ok :
      (s : t.State) (k : K) (p : R → Bool) (f : R → R)
      → (t.update_if s k p f).1 ≡ holds p (t.get_item s k)
  pub get-update_if :
      (s : t.State) (k : K) (p : R → Bool) (f : R → R) (j : K)
      → t.get_item (t.update_if s k p f).0 j ≡ (
          if (j == k) && holds p (t.get_item s k)
          then on_item f (t.get_item s k)
          else t.get_item s j)
  pub delete_if_ok :
      (s : t.State) (k : K) (p : R → Bool) → (t.delete_if s k p).1 ≡ holds p (t.get_item s k)
  pub get-delete_if :
      (s : t.State) (k : K) (p : R → Bool) (j : K)
      → t.get_item (t.delete_if s k p).0 j
        ≡ (if (j == k) && holds p (t.get_item s k) then none else t.get_item s j)

-- An attribute of a record: `item[name]` and `item[name] = value`.
pub record Attribute (R V : Type 0) : Type 0 where
  pub get : R → V
  pub set : V → R → R

module _ {K R : Type 0} (t : Table K R) (key_of : R → K) where
  -- `create`: true if the item was new.
  abbrev pub create : R → t.State → t.State × Bool
  create entry s = t.put_new s (key_of entry) entry

  -- `find` with `consistent=True`.
  abbrev pub find : K → t.State → Option R
  find k s = t.get_item s k

  module _ {V : Type 0} ⦃v : Eq V⦄ (a : Attribute R V) where
    -- `patch_with_condition`: the condition is that the attribute still has the value that `entry`
    -- shows. False stands for the `OptimisticLockException`.
    abbrev pub patch_with_condition : R → V → (R → R) → t.State → t.State × Bool
    patch_with_condition entry new_value patches s =
        t.update_if s (key_of entry) (λ r. a.get r == a.get entry)
          (λ r. a.set new_value (patches r))

    -- `delete_with_condition`: false stands for the `OptimisticLockException`.
    abbrev pub delete_with_condition : R → V → t.State → t.State × Bool
    delete_with_condition entry value s = t.delete_if s (key_of entry) (λ r. a.get r == value)

-- The laws can be met: a table kept as a function.
module _ {K R : Type 0} ⦃e : Eq K⦄ where
  abbrev pub memory_table : Table K R
  memory_table = record {
    State = K → Option R;
    get_item = λ s k. s k;
    put_new = λ s k r. ((λ j. if (j == k) && is_none (s k) then some r else s j), is_none (s k));
    update_if = λ s k p f.
        ((λ j. if (j == k) && holds p (s k) then on_item f (s k) else s j), holds p (s k));
    delete_if = λ s k p. ((λ j. if (j == k) && holds p (s k) then none else s j), holds p (s k));
  }

  pub memory_table-IsLawful : IsLawful memory_table
  memory_table-IsLawful = record {
    put_new_ok = λ s k r. refl;
    get-put_new = λ s k r j. refl;
    update_if_ok = λ s k p f. refl;
    get-update_if = λ s k p f j. refl;
    delete_if_ok = λ s k p. refl;
    get-delete_if = λ s k p j. refl;
  }
