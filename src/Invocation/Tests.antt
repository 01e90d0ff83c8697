-- ===== src/Invocation/Tests.antt =====
-- What a call leaves in a request, at one call.
use jmaplib.Prelude.{Text, codes, [], ◌∷◌, err}
use jmaplib.Prelude.Dict.{Dict}
use jmaplib.Invocation.{Value, member, end, MethodCall, caught}

-- { "ids": <back-reference>, "create": { "k": <model of a text> } }
abbrev mixed_call : MethodCall Text
mixed_call = record {
  name = codes "Email/set";
  arguments =
      (
        codes "ids",
        Value.reference
            (record { result_of = codes "c0"; name = codes "Email/query"; path = codes "/ids" }),
      )
      ∷ (codes "create", Value.dict (member (codes "k") (Value.model (Value.str (codes "v"))) end))
      ∷ [];
  parse = λ body. err (caught []);
}

abbrev mixed_wire : Dict Text Value
mixed_wire =
    (codes "create", Value.dict (member (codes "k") (Value.str (codes "v")) end))
    ∷ (
      codes "#ids",
      Value.dict (
          member (codes "resultOf") (Value.str (codes "c0")) (
            member (codes "name") (Value.str (codes "Email/query"))
              (member (codes "path") (Value.str (codes "/ids")) end))),
    )
    ∷ []
