-- ===== src/Tests/Listings.antt =====
-- Runs of Ops.Listing over the store in memory.
use linbo_docker.Base.{ℕ, ◌≡◌, refl, none, some, [], ◌∷◌, map, length, arith, if◌then◌else◌}
use linbo_docker.Ops.Data.{OpStatus, OpHash, empty_op, exists}
use linbo_docker.Ops.Listing.{list_operations}
use linbo_docker.Ops.Pages.{read_pages, shown_ops, wanted, read_pages-wanted}
use text.Mathlib.Text.{◌==◌}
use linbo_docker.Tests.Memory.{Store, memory}

abbrev op_at : ℕ → OpHash
op_at n = record empty_op { status = some OpStatus.running; created_at = some n }

-- three operations that are listed still, one of them expired
abbrev indexed : Store
indexed = record {
  ops = λ k. if k == "a" then op_at 3 else if k == "c" then op_at 1 else empty_op;
  hashes = λ k. [];
  ids = "a" ∷ "b" ∷ "c" ∷ [];
}

-- the first page cleans the index up
cleaned_index : (list_operations memory 1 1 none indexed).1.ids ≡ "a" ∷ "c" ∷ []
unfolding list_operations exists
cleaned_index = refl

two_pages : (list_operations memory 1 1 none indexed).0.pages ≡ 2
unfolding list_operations exists
two_pages = refl

second_page :
    map (λ (h : OpHash). h.created_at) (list_operations memory 2 1 none indexed).0.data_of
    ≡ some 1 ∷ []
unfolding list_operations exists
second_page = refl

read_pages-wanted_example :
    ((read_pages memory
        (list_operations memory 1 1 (some OpStatus.running) indexed).0.pages
        1
        1
        (some OpStatus.running)
        indexed).0
      ≡ shown_ops memory indexed (wanted memory (some OpStatus.running) indexed))
    × ((list_operations memory 1 1 (some OpStatus.running) indexed).0.total
        ≡ length (wanted memory (some OpStatus.running) indexed))
read_pages-wanted_example = read_pages-wanted memory 1 (some OpStatus.running) indexed (omega arith)
