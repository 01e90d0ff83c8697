-- ===== src/StrictJson/Tests.antt =====
-- A document with a number that is too large, scanned and reported.
use jmaplib.Prelude.{codes, ◌^◌, [], some, ok, err, ◌≡◌, refl, decimal, replace_char}
use jmaplib.Json.{Json, pos, int, str, arr, obj, nil, cons, end, field}
use jmaplib.Pointer.{escape_token}
use jmaplib.StrictJson.{
  check_int, check_string, check_tree, find_surrogate, integer_range, push_fields, push_items,
  scan_loop, scan_tree, validate,
}
use jmaplib.StrictJson.Fast.{clean, validate-check_tree}

checker : Unit {0}
unfolding validate scan_tree scan_loop push_fields push_items check_tree check_int check_string
    find_surrogate escape_token decimal replace_char
checker = tt

abbrev sizes : Json
sizes = obj (field (codes "sizes") (arr (cons (int (pos 7)) (cons (int (pos (2 ^ 53))) nil))) end)

out_of_range : validate sizes ≡ err (integer_range (pos (2 ^ 53)) (codes "/sizes/1"))
unfolding checker
out_of_range = refl

fine : validate (str (codes "fine")) ≡ ok tt
unfolding checker
fine = refl

validate-check_tree_example :
    (scan_tree sizes ≡ some (clean sizes)) × (validate sizes ≡ check_tree sizes [])
validate-check_tree_example = validate-check_tree sizes
