-- ===== src/Storage/Schema/Witnesses.antt =====
-- Rows that the store reads.
use evictor.Prelude.{◌≡◌, refl, true, [], ◌++◌, ◌∷◌, List, codes}
use evictor.Prelude.Int.{pos}
use evictor.Storage.Json.{object, Members}
use evictor.Storage.Sql.{added, Value, text, integer, instant, jsonb, null}
use evictor.Storage.Models.{Project}
use evictor.Storage.Store.{project_insert}
use evictor.Storage.Tables.{tables}
use evictor.Storage.Schema.Documents.{decodes}
use evictor.Storage.Schema.Reads.{reads}
use evictor.Storage.Schema.Scans.{read_inference_request, select_of, scans, scans-eq-decodes}

abbrev stored : List Value
stored =
    text (codes "req_1")
    ∷ text (codes "ep_1")
    ∷ integer (pos 8120)
    ∷ null
    ∷ text (codes "cold")
    ∷ text (codes "reported")
    ∷ null
    ∷ instant 5
    ∷ instant 7
    ∷ jsonb (object Members.nil)
    ∷ []

can_be_read : reads (select_of (read_inference_request (codes "req_1"))) stored ≡ true
unfolding select_of reads
can_be_read = refl

scans-eq-decodes_example : scans (read_inference_request (codes "req_1")) stored ≡ decodes stored
scans-eq-decodes_example =
    scans-eq-decodes (read_inference_request (codes "req_1")) stored can_be_read

it_decodes : decodes stored ≡ true
unfolding decodes
it_decodes = refl

abbrev main : Project
main = record { id = codes "proj_1"; name = codes "main"; created_at = 0 }

abbrev other : Project
other = record { id = codes "proj_2"; name = codes "other"; created_at = 0 }

with_main : tables.State
unfolding tables project_insert added
with_main = ("projects", added (project_insert main) (instant 7 ∷ [])) ∷ []

with_other : tables.State
unfolding tables with_main project_insert added
with_other = with_main ++ ("projects", added (project_insert other) (instant 7 ∷ [])) ∷ []

abbrev main_row : List Value
main_row = text (codes "proj_1") ∷ text (codes "main") ∷ instant 7 ∷ []
