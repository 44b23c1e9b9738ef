-- ===== src/Services/Values.antt =====
-- The values that the program builds with `ValueBuilder` and `MakeDoc`.
use sd_hw.Prelude.{ℕ, Text, String, List}

mutual
  pub data Json : Type 0 where
    string : Text → Json
    number : ℕ → Json
    array : Items → Json
    object : Members → Json

  pub data Items : Type 0 where
    no_items : Items
    item : Json → Items → Items

  pub data Members : Type 0 where
    no_members : Members
    member : String → Json → Members → Members

-- A date is in seconds, a double its 64 bits; the arrays of the program hold texts.
mutual
  pub data Bson : Type 0 where
    text : Text → Bson
    oid : ℕ → Bson
    date : ℕ → Bson
    double : ℕ → Bson
    texts : List Text → Bson
    document : Doc → Bson

  pub data Doc : Type 0 where
    no_fields : Doc
    field : String → Bson → Doc → Doc
