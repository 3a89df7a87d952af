-- ===== src/Order/State.antt =====
-- order.c: the state of the orderer, and the search for a declaration by its name.
--
-- A pointer to a top-level declaration is its index in `tldecls`, whose two fields are two lists
-- here, `decls` and `states`.
use sunder.Prelude.{
  ℕ, suc, List, [], ◌∷◌, Option, none, some, Bool, true, false, not, ◌&&◌, ◌||◌, ◌==◌, leb, ◌≡◌,
  refl, ◌⊎◌, inl, inr, if◌then◌else◌, length, get_or, get_elem?, set, replicate, ◌++◌,
}
use sunder.Cst.{
  Decl, decl_name, decl_extend, decl_extern_variable, decl_extern_function, decl_extern_type,
  CstModule, SymbolStart, start_root,
}

pub data TldeclState : Type 0 where
  unordered ordering ordered : TldeclState

pub record Orderer : Type 0 where
  pub cst : CstModule
  pub decls : List Decl
  pub states : List TldeclState
  pub topological_order : List ℕ
  pub dependencies : List ℕ

-- Why the process stops. No run of the program is out of fuel.
pub data Stop : Type 0 where
  circular redeclared misplaced_extend failed_assertion out_of_fuel : Stop

pub data Result {ℓ} (A : Type ℓ) : Type ℓ where
  ok : A → Result A
  stop : Stop → Result A

infixl 5 ◌>>=◌
abbrev pub ◌>>=◌ {ℓ κ} : {A : Type ℓ} {B : Type κ} → Result A → (A → Result B) → Result B
ok a >>= f = f a
stop e >>= f = stop e

abbrev pub assert : Bool → Result (Unit {0})
assert true = ok tt
assert false = stop failed_assertion

abbrev pub is_extend : Decl → Bool
is_extend (decl_extend t d) = true
is_extend _ = false

abbrev pub found : Bool → Option ℕ → Option ℕ
found true rest = some 0
found false none = none
found false (some i) = some (suc i)

-- `orderer_tldecl_lookup`.
unfoldable pub tldecl_lookup : List Decl → ℕ → Option ℕ
tldecl_lookup [] name = none
tldecl_lookup (d ∷ ds) name =
    found (decl_name d == name && not (is_extend d)) (tldecl_lookup ds name)

abbrev pub set_state : ℕ → TldeclState → Orderer → Orderer
set_state i state o = record o { states = set o.states i state }

abbrev is_found : Option ℕ → Bool
is_found none = false
is_found (some i) = true

abbrev is_root : SymbolStart → Bool
is_root start_root = true
is_root _ = false

abbrev namespace_names : Option (List ℕ) → List ℕ
namespace_names none = []
namespace_names (some names) = names

-- The loop that matches a symbol against the namespace of the module.
abbrev pub matches_namespace : List ℕ → List ℕ → Bool
matches_namespace [] names = true
matches_namespace (n ∷ ns) [] = false
matches_namespace (n ∷ ns) (name ∷ names) = name == n && matches_namespace ns names

-- The name of the declaration that `order_symbol` orders for the names of the elements of a symbol.
unfoldable pub symbol_target : Option (List ℕ) → List Decl → SymbolStart → List ℕ → Option ℕ
unfolding tldecl_lookup
symbol_target namespace decls start names =
    let defined = is_found (tldecl_lookup decls (get_or names 0 0)) in
    let ns = namespace_names namespace in
    if is_root start || not defined
    then (if leb (length names) (length ns)
        then none
        else if matches_namespace ns names
        then some (get_or names (length ns) 0)
        else none)
    else some (get_or names 0 0)

abbrev pub both_extern : Decl → Decl → Bool
both_extern (decl_extern_variable n t) (decl_extern_variable m u) = true
both_extern (decl_extern_function n ps t) (decl_extern_function m qs u) = true
both_extern (decl_extern_type n) (decl_extern_type m) = true
both_extern _ _ = false

-- What the loop of `orderer_new` makes of a declaration: `existing` is what has its name.
abbrev pub admit : Decl → Option Decl → List Decl → Result (List Decl)
admit d none decls = ok (decls ++ d ∷ [])
admit d (some existing) decls =
    if decl_name existing == decl_name d && both_extern existing d
    then ok decls
    else if is_extend d
    then ok (decls ++ d ∷ [])
    else stop redeclared

abbrev pub decl_at : List Decl → Option ℕ → Option Decl
decl_at decls none = none
decl_at decls (some i) = get_elem? decls i

unfoldable pub new_decls : List Decl → List Decl → Result (List Decl)
unfolding tldecl_lookup
new_decls [] decls = ok decls
new_decls (d ∷ ds) decls =
    admit d (decl_at decls (tldecl_lookup decls (decl_name d))) decls >>= new_decls ds

unfoldable pub orderer_new : CstModule → Result Orderer
unfolding new_decls
orderer_new cst = new_decls cst.decls [] >>= λ decls. ok (record {
  cst = cst;
  decls = decls;
  states = replicate (length decls) unordered;
  topological_order = [];
  dependencies = [];
})

-- To split on a computed result or state and keep the equation.
pub Result-cases {ℓ} :
    {A : Type ℓ} (r : Result A) → ((a : A) × (r ≡ ok a)) ⊎ ((e : Stop) × (r ≡ stop e))
Result-cases (ok a) = inl (a, refl)
Result-cases (stop e) = inr (e, refl)

pub state-cases : (x : TldeclState) → (x ≡ unordered) ⊎ ((x ≡ ordering) ⊎ (x ≡ ordered))
state-cases unordered = inl refl
state-cases ordering = inr (inl refl)
state-cases ordered = inr (inr refl)
