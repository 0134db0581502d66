-- ===== src/Provider/Fake/Injection.antt =====
-- The failures that src/provider/fake.rs injects come out in the order in which they went in, for
-- each operation by itself.
use liuzx_skf.Provider.{Operation, SkfError}
use liuzx_skf.Provider.Fake.{op_beq}
use liuzx_skf.Common.{if◌then◌else◌, text_eq, Option, none, some, List, [], ◌∷◌}

-- The queue of one operation.
abbrev pub queue_of : Operation → List (Operation × SkfError) → List SkfError
queue_of op [] = []
queue_of op ((o, e) ∷ queue) =
    let rest = queue_of op queue in if op_beq o op then e ∷ rest else rest

abbrev pub head_of : List SkfError → Option SkfError
head_of [] = none
head_of (e ∷ es) = some e

abbrev pub tail_of : List SkfError → List SkfError
tail_of [] = []
tail_of (e ∷ es) = es
