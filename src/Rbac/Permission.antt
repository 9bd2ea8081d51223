-- ===== src/Rbac/Permission.antt =====
-- Permissions "resource:action" and the checks of names (internal/rbac/rbac.go, policy.go).
pub mod Laws
use Prim.Native.Char.{Char, code}
use codeai.Base.{
  ℕ, Bool, true, false, ◌&&◌, ◌||◌, String, List, [], ◌∷◌, Option, none, some, str_eq, ◌==◌,
  if◌then◌else◌,
}

pub data Error : Type 0 where
  role_not_found role_already_exists invalid_permission cyclic_inheritance invalid_role_name : Error

abbrev pub colon : Char → Bool
colon c = code c == b':'

-- Puts a character before the first part.
abbrev pub cons_head : Char → List String → List String
cons_head c [] = String.◌∷◌ c String.[] ∷ []
cons_head c (h ∷ t) = String.◌∷◌ c h ∷ t

-- `strings.Split(s, ":")`.
unfoldable pub split : String → List String
split String.[] = String.[] ∷ []
split (String.◌∷◌ c s) =
    let parts = split s in if colon c then String.[] ∷ parts else cons_head c parts

-- `strings.SplitN(s, ":", 2)`.
unfoldable pub split_n2 : String → List String
split_n2 String.[] = String.[] ∷ []
split_n2 (String.◌∷◌ c s) =
    let parts = split_n2 s in if colon c then String.[] ∷ s ∷ [] else cons_head c parts

abbrev pub first_part : List String → String
first_part [] = ""
first_part (p ∷ _) = p

abbrev pub second_part : List String → String
second_part (_ ∷ p ∷ _) = p
second_part _ = ""

unfoldable pub resource : String → String
resource p = first_part (split_n2 p)

unfoldable pub action : String → String
action p = second_part (split_n2 p)

unfoldable pub matches : String → String → Bool
matches p target =
    (str_eq (resource p) "*" || str_eq (resource p) (resource target))
    && (str_eq (action p) "*" || str_eq (action p) (action target))

abbrev pub is_empty : String → Bool
is_empty String.[] = true
is_empty _ = false

validate_parts : List String → Option Error
validate_parts (r ∷ a ∷ []) = if is_empty r || is_empty a then some invalid_permission else none
validate_parts _ = some invalid_permission

unfoldable pub validate_permission : String → Option Error
unfolding split validate_parts
validate_permission s = if is_empty s then some invalid_permission else validate_parts (split s)

-- `strings.ContainsAny(name, " \t\n\r")`.
unfoldable pub contains_space : String → Bool
contains_space String.[] = false
contains_space (String.◌∷◌ c s) =
    (code c == 32 || code c == 9 || code c == 10 || code c == 13) || contains_space s

unfoldable pub validate_role_name : String → Option Error
unfolding contains_space
validate_role_name name =
    if is_empty name
    then some invalid_role_name
    else if contains_space name
    then some invalid_role_name
    else none
