-- ===== src/Stream/Examples.antt =====
-- The theorems of the reducer at events that leave a gap.
use llm_api_mind.Base.{[], ◌∷◌, ◌≡◌, refl}
use llm_api_mind.Base.Sorting.{sort_by, insert_by}
use llm_api_mind.Chronology.Samples.{python}
use llm_api_mind.Stream.Reducer.{
  reduce_stream_events, take_all, take_in, load_pending, put_event, by_seq, advance, advance_all,
  unique_seqs,
}
use llm_api_mind.Stream.Reducer.Delivery.{Delivers, reduce-Delivers}
use llm_api_mind.Stream.Reducer.Redelivery.{redelivery}
use llm_api_mind.Stream.Samples.{dumps, arrivals, fresh}

-- The events 1 and 2 are applied, and 5 waits for 3 and 4.
gap_test : (reduce_stream_events python dumps arrivals fresh).missing_seq_ranges ≡ (3, 4) ∷ []
unfolding reduce_stream_events take_all take_in load_pending put_event by_seq advance advance_all
    unique_seqs sort_by insert_by
gap_test = refl

reduce-Delivers_example : Delivers python fresh (reduce_stream_events python dumps arrivals fresh)
reduce-Delivers_example = reduce-Delivers python dumps arrivals fresh

redelivery_example :
    let r = reduce_stream_events python dumps arrivals fresh in
    let r' = reduce_stream_events python dumps arrivals r.state in
    (r'.state.turns ≡ r.state.turns)
    × (r'.state.cursor_seq ≡ r.state.cursor_seq)
    × (r'.state.applied_event_ids ≡ r.state.applied_event_ids)
    × (r'.next_expected_seq ≡ r.next_expected_seq)
redelivery_example = redelivery python dumps arrivals fresh
