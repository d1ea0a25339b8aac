-- ===== src/Tests/TextCases.antt =====
-- Full-text queries and slugs of short texts.
use syncmaster.Queues.Statements.{fits_queue}
use syncmaster.Search.Query.{bracketed, groups_of, build_tsquery-tokens}
use syncmaster.Tests.Sample.{sample}
use syncmaster.Queues
use syncmaster.Queues.Creation.{AllSlugged, same_slug, is_duplicate, create-slugs}
use syncmaster.Queues.{QueueData, slug_of}
use syncmaster.Search.{build_tsquery}
use syncmaster.Search.Tokens.{read_tokens, mark}
use syncmaster.Prelude.{Text, any, none, codes, ◌≡◌, refl, true, join, some, ◌∷◌, [], map, ◌&&◌}
use syncmaster.Queues.Slug.{
  slug, short_name, group_of, slug-group_id, underscore, name_words, short_name-join,
}

abbrev input : Text
input = codes "@/some/path! it's"

build_tsquery-tokens_example :
    read_tokens none (build_tsquery input)
    ≡ some (join (mark b'|' ∷ []) (map bracketed (groups_of input)))
build_tsquery-tokens_example = build_tsquery-tokens input

query : build_tsquery (codes "/a' x") ≡ codes "('/a' & 'x') | ('/a':* & 'x':*) | ('a':* & 'x':*)"
unfolding build_tsquery syncmaster.Search.combine_queries syncmaster.Search.combine_words
    syncmaster.Search.words_with_supported_punctuation syncmaster.Prelude.split_from
    syncmaster.Search.words_without_any_punctuation
query = refl

slug-group_id_example : group_of (slug 12 (codes "My queue")) ≡ 12
slug-group_id_example = slug-group_id 12 (codes "My queue")

my_queue : short_name (codes " My -- queue! ") ≡ codes "my_queue"
unfolding short_name syncmaster.Queues.Slug.sub
my_queue = refl

abbrev again : QueueData
again = record { name = "Main!"; group_id = 2; description = "" }

sample-AllSlugged : AllSlugged sample
sample-AllSlugged = (slug-group_id 1 (codes "main"), (slug-group_id 2 (codes "main"), tt))

create-slugs_example :
    AllSlugged (Queues.create again sample).1
    × AllSlugged (Queues.update 1 "other" "" sample).1
    × (is_duplicate (Queues.create again sample).0 ≡ (
        fits_queue again.name (slug_of again) again.group_id again.description
        && any (same_slug again) sample.queues))
create-slugs_example = create-slugs again 1 "other" "" sample sample-AllSlugged
