-- ===== src/Ipa/Shape/Paths.antt =====
-- The roles that the members' names play in src/ios_rehydrate/ipa.py: no name is both a file and the
-- directory of another.
use ios_rehydrate.Prelude.{
  ◌≡◌, ◌⊎◌, inl, inr, refl, sym, ap, ◌∙◌, Bool, true, false, not, ◌&&◌, some, List, [], ◌∷◌, arith,
  All, or-false, Bool-cases,
}
use ios_rehydrate.Prelude.Bytes.{Text, eq_text, eq_text→eq, eq_text_refl, elem}
use ios_rehydrate.Errors.{Ensures, Ensures-done, Ensures-raise_if, Ensures-bind}
use ios_rehydrate.Ipa.Shape.{Role, Roles, role_of, is_file, ancestors, add_ancestors, add_role}

eq_text_sym : (xs ys : Text) → eq_text xs ys ≡ eq_text ys xs
unfolding eq_text
eq_text_sym [] [] = refl
eq_text_sym [] (y ∷ ys) = refl
eq_text_sym (x ∷ xs) [] = refl
eq_text_sym (x ∷ xs) (y ∷ ys) = ground (arith, eq_text_sym xs ys)

All-zip {ℓ κ μ ν} :
    {A : Type ℓ} {P : A → Type κ} {Q : A → Type μ} {R : A → Type ν} (xs : List A)
    → ((x : A) → P x → Q x → R x)
    → All P xs
    → All Q xs
    → All R xs
All-zip [] f p q = tt
All-zip (x ∷ xs) f (p, ps) (q, qs) = (f x p q, All-zip xs f ps qs)

abbrev pub keys : List Role → List Text
keys [] = []
keys ((name, is_directory) ∷ roles) = name ∷ keys roles

abbrev pub HasDistinctKeys : List Role → Type 0
HasDistinctKeys [] = Unit
HasDistinctKeys ((name, is_directory) ∷ roles) =
    (elem name (keys roles) ≡ false) × HasDistinctKeys roles

-- A directory, or a name that the set does not have
abbrev pub IsClearOf : List Text → Role → Type 0
IsClearOf set role = (role.1 ≡ true) ⊎ (elem role.0 set ≡ false)

-- The first is a directory or the path of the second does not run through it.
abbrev pub LeavesRoom : Role → Role → Type 0
LeavesRoom role other = (role.1 ≡ true) ⊎ (elem role.0 (ancestors other.0) ≡ false)

-- Distinct names, and no path that runs through a file
pub record IsTree (roles : List Role) : Type 0 where
  pub distinct : HasDistinctKeys roles
  pub clear : All (λ role. All (LeavesRoom role) roles) roles

keys-apart :
    (name : Text) (roles : List Role)
    → elem name (keys roles) ≡ false
    → All (λ role. eq_text role.0 name ≡ false) roles
unfolding elem
keys-apart name [] h = tt
keys-apart name ((n, d) ∷ roles) h =
    let (here, later) = or-false (eq_text name n) (elem name (keys roles)) h in
    (eq_text_sym n name ∙ here, keys-apart name roles later)

role_of-apart :
    (name : Text) (roles : List Role)
    → HasDistinctKeys roles
    → is_file (role_of name roles) ≡ false
    → All (λ role. (role.1 ≡ true) ⊎ (eq_text role.0 name ≡ false)) roles
unfolding role_of
role_of-apart name [] distinct h = tt
role_of-apart name ((n, d) ∷ roles) (fresh, distinct) h = elim (Bool-cases (eq_text name n)) [
  | inl same ↦
      let found : is_file (some d) ≡ false = rw same at h in
      let e : n ≡ name = sym (eq_text→eq name n same) in
      (
        inl (directory d found),
        All-zip roles (λ role a b. inr a) (keys-apart name roles (rw e at fresh))
            (keys-apart name roles (rw e at fresh)),
      )
  | inr other ↦
      let later : is_file (role_of name roles) ≡ false = rw other at h in
      (inr (eq_text_sym n name ∙ other), role_of-apart name roles distinct later)
]
  where
    directory : (d : Bool) → is_file (some d) ≡ false → d ≡ true
    directory true e = refl
    directory false e = cc

-- What holds of the sets and the dictionary after every member
pub record IsConsistent (roles : Roles) : Type 0 where
  pub names_lem : roles.canonical_names ≡ keys roles.explicit_directories
  pub distinct : HasDistinctKeys roles.explicit_directories
  pub clear : All (IsClearOf roles.implicit_directories) roles.explicit_directories
  pub covered :
      All
        (λ role. All (λ a. elem a roles.implicit_directories ≡ true) (ancestors role.0))
        roles.explicit_directories

-- What the loop over the ancestors leaves
record Grown (added implicit result : List Text) (explicit : List Role) : Type 0 where
  keeps : (x : Text) → elem x implicit ≡ true → elem x result ≡ true
  contains : All (λ a. elem a result ≡ true) added
  clear : All (IsClearOf result) explicit

IsClearOf-cons :
    (ancestor : Text) (set : List Text) (role : Role)
    → (role.1 ≡ true) ⊎ (eq_text role.0 ancestor ≡ false)
    → IsClearOf set role
    → IsClearOf (ancestor ∷ set) role
unfolding elem
IsClearOf-cons ancestor set role (inl d) c = inl d
IsClearOf-cons ancestor set role (inr a) (inl d) = inl d
IsClearOf-cons ancestor set role (inr a) (inr c) = inr (rw (a, c) refl)

elem-cons :
    (x ancestor : Text) (set : List Text) → elem x set ≡ true → elem x (ancestor ∷ set) ≡ true
unfolding elem
elem-cons x ancestor set h = ground (arith, h)

elem-head : (x : Text) (set : List Text) → elem x (x ∷ set) ≡ true
unfolding elem
elem-head x set = rw (eq_text_refl x) refl

add_ancestors-Grown :
    (added : List Text) (explicit : List Role) (implicit : List Text)
    → HasDistinctKeys explicit
    → All (IsClearOf implicit) explicit
    → Ensures
        (λ result. Grown added implicit result explicit)
        (add_ancestors added explicit implicit)
unfolding add_ancestors
add_ancestors-Grown [] explicit implicit distinct clear =
    Ensures-done implicit (record { keeps = λ x h. h; contains = tt; clear = clear })
add_ancestors-Grown (ancestor ∷ rest) explicit implicit distinct clear =
    Ensures-raise_if (is_file (role_of ancestor explicit)) _ _ λ free.
      let further =
        All-zip explicit (IsClearOf-cons ancestor implicit)
          (role_of-apart ancestor explicit distinct free) clear in
      record {
        at = λ result h.
            let g =
              (add_ancestors-Grown rest explicit (ancestor ∷ implicit) distinct further).at result
                h in
            record {
              keeps = λ x m. g.keeps x (elem-cons x ancestor implicit m);
              contains = (g.keeps ancestor (elem-head ancestor implicit), g.contains);
              clear = g.clear;
            };
      }

All-map {ℓ κ μ} :
    {A : Type ℓ} {P : A → Type κ} {Q : A → Type μ} (xs : List A)
    → ((x : A) → P x → Q x)
    → All P xs
    → All Q xs
All-map [] f p = tt
All-map (x ∷ xs) f (p, ps) = (f x p, All-map xs f ps)

pub add_role-IsConsistent :
    (canonical_name : Text) (is_directory : Bool) (roles : Roles)
    → IsConsistent roles
    → Ensures
        (λ result.
          IsConsistent result
          × (result.explicit_directories
              ≡ (canonical_name, is_directory) ∷ roles.explicit_directories))
        (add_role canonical_name is_directory roles)
unfolding add_role
add_role-IsConsistent canonical_name is_directory roles c =
    Ensures-raise_if (elem canonical_name roles.canonical_names) _ _ λ fresh.
      Ensures-bind
        (add_ancestors (ancestors canonical_name) roles.explicit_directories
          roles.implicit_directories)
        _
        λ implicit grown.
          let g =
            (add_ancestors-Grown (ancestors canonical_name) roles.explicit_directories
                roles.implicit_directories c.distinct c.clear).at
              implicit grown in
          Ensures-raise_if (elem canonical_name implicit && not is_directory) _ _ λ free.
            Ensures-done _ (
              record {
                names_lem = ap (λ (ns : List Text). canonical_name ∷ ns) c.names_lem;
                distinct = (rw c.names_lem at fresh, c.distinct);
                clear = (own is_directory (elem canonical_name implicit) free, g.clear);
                covered = (
                  g.contains,
                  All-map roles.explicit_directories
                      (λ role ps. All-map (ancestors role.0) g.keeps ps) c.covered,
                );
              },
              refl,
            )
  where
    own : (d m : Bool) → (m && not d) ≡ false → (d ≡ true) ⊎ (m ≡ false)
    own true m h = inl refl
    own false m h = inr (ground arith)

-- A name outside of a set is outside of a list of its members.
elem-outside :
    (x : Text) (names set : List Text)
    → elem x set ≡ false
    → All (λ a. elem a set ≡ true) names
    → elem x names ≡ false
unfolding elem
elem-outside x [] set h inside = refl
elem-outside x (n ∷ names) set h (i, inside) = elim (Bool-cases (eq_text x n)) [
  | inl same ↦ let e : x ≡ n = eq_text→eq x n same in absurd (impossible (elem n set) (rw e at h) i)
  | inr other ↦ rw other (elem-outside x names set h inside)
]
  where
    impossible : (b : Bool) → b ≡ false → b ≡ true → ⊥
    impossible true f t = cc
    impossible false f t = cc

pub IsConsistent-IsTree : (roles : Roles) → IsConsistent roles → IsTree roles.explicit_directories
IsConsistent-IsTree roles c = record {
  distinct = c.distinct;
  clear =
      All-map roles.explicit_directories
        (λ role clear. All-map roles.explicit_directories (room role clear) c.covered) c.clear;
}
  where
    room :
        (role : Role)
        → IsClearOf roles.implicit_directories role
        → (other : Role) → All (λ a. elem a roles.implicit_directories ≡ true) (ancestors other.0)
        → LeavesRoom role other
    room role (inl d) other inside = inl d
    room role (inr h) other inside =
        inr (elem-outside role.0 (ancestors other.0) roles.implicit_directories h inside)
