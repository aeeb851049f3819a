-- ===== src/Database/Examples.antt =====
-- The theorems on databases at a file that is an association list.
use libdsvdc.Base.{
  ℕ, ◌≡◌, refl, true, Option, none, some, List, [], ◌∷◌, Bytes, ◌==◌, if◌then◌else◌,
}
use libdsvdc.Database.{Codec, database_open}
use libdsvdc.Database.Dictionary.{empty_array, full_array, Command, save, load, answers, cost}
use libdsvdc.Database.Refinement.{serve, serve-Refines}
use libdsvdc.Database.Opening.{Opening, database_open-Opening}
use libdsvdc.Memory.{Ends, Holding}
use libdsvdc.Property.{Elements, vector, null}
use libdsvdc.Samples.{plenty, plain_query, plain_query-Whole}
use libdsvdc.Database.SampleFile.{file, file-IsReliable}

database_open-Opening_example :
    Ends
      (λ r n. Opening file (λ name. 0) (97 ∷ []) true plenty n r)
      (database_open file (λ name. 0) (97 ∷ []) true plenty)
database_open-Opening_example = database_open-Opening file (λ name. 0) (97 ∷ []) true plenty

-- A codec for two arrays: the empty one and the query.
abbrev unpacked : Bytes → Option (ℕ × Elements)
unpacked (n ∷ []) = some (n, if n == 0 then null else vector plain_query)
unpacked _ = none

abbrev codec : Codec
codec = record { pack = λ n elements. n ∷ []; unpack = unpacked }

abbrev commands : List Command
commands =
    save (97 ∷ []) (record { message_id = none; properties = vector plain_query; n_properties = 1 })
    ∷ save (98 ∷ []) (record { message_id = none; properties = null; n_properties = 0 })
    ∷ load (97 ∷ [])
    ∷ load (99 ∷ [])
    ∷ load (98 ∷ [])
    ∷ []

serve-Refines_example :
    Ends
      (λ rs n. (rs ≡ answers [] commands) × Holding plenty n (cost [] commands))
      (serve file codec (some (record { dbf = []; rw = true })) commands plenty)
serve-Refines_example =
    serve-Refines file codec file-IsReliable (record { dbf = []; rw = true }) [] commands plenty
      (record { held = λ key. refl; storable = λ key. tt })
      (
        record { whole = full_array plain_query-Whole; faithful = refl },
        (record { whole = empty_array; faithful = refl }, tt),
      )
      (λ k. refl)
