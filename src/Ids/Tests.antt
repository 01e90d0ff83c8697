-- ===== src/Ids/Tests.antt =====
-- Ids that are accepted and refused.
use jmaplib.Prelude.{codes, true, ok, err, ◌≡◌, refl, ◌↔◌}
use jmaplib.Ids.{parse_id, is_valid_id, invalid_id, reserved, bad_charset}
use jmaplib.Ids.Laws.{parse_id_iff}

accepts : parse_id (codes "M_a-9") ≡ ok (codes "M_a-9")
unfolding parse_id
accepts = refl

refuses :
    (parse_id (codes "#k1") ≡ err (invalid_id (codes "#k1") reserved))
    × (parse_id (codes "a b") ≡ err (invalid_id (codes "a b") bad_charset))
unfolding parse_id
refuses = (refl, refl)

parse_id_iff_example :
    (parse_id (codes "k1") ≡ ok (codes "k1"))
    ↔ ((is_valid_id (codes "k1") ≡ true) × (codes "k1" ≡ codes "k1"))
parse_id_iff_example = parse_id_iff (codes "k1") (codes "k1")
