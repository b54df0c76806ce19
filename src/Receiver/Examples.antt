-- ===== src/Receiver/Examples.antt =====
-- The theorems on the lines of DogStatsD at a counter with a sample rate and a tag.
use ruptura.Base.{
  ℕ, ◌+◌, ◌≡◌, refl, Option, none, some, [], ◌∷◌, ◌++◌, nat_beq, if◌then◌else◌, Float, fixed,
  insert,
}
use ruptura.Storage.{Bytes, bytes_eq, colon, Json, set, set_raw, commit}
use ruptura.Storage.Memory.{memory}
use ruptura.Storage.Series.{list_metrics, range_query, put_metric, save_metric}
use ruptura.Receiver.{
  pipe, trim_space, StatsDMetric, missing_colon, missing_type, bad_value, parsed, failed,
  parse_stats_d_line, emit, receive_lines, receive_packet,
}
use ruptura.Receiver.Lines.{
  join, line_text, with_tags, parse_stats_d_line-line_text, parse_stats_d_line_outcome,
}

instance abbrev fixed_float : Float ℕ
fixed_float = fixed

-- A reader of one digit, in units of 10^-9.
abbrev one_digit : Bytes → Option ℕ
one_digit [] = none
one_digit (c ∷ []) = if nat_beq c b'2' then some 2000000000 else none
one_digit (c ∷ d ∷ cs) = if nat_beq d b'5' then some 500000000 else none

-- a:2|c|@.5|#k:v
abbrev name : Bytes
name = b'a' ∷ []

abbrev two : Bytes
two = b'2' ∷ []

abbrev counter : Bytes
counter = b'c' ∷ []

abbrev half : Bytes
half = b'.' ∷ b'5' ∷ []

abbrev tag : Bytes × Bytes
tag = (b'k' ∷ [], b'v' ∷ [])

parse_stats_d_line-line_text_example :
    parse_stats_d_line one_digit 9 (line_text name two counter half (tag ∷ []))
    ≡ parsed (record {
      name = name;
      value = 2000000000;
      type_ = counter;
      sample_rate = 500000000;
      tags = with_tags (tag ∷ []) [];
      timestamp = 9;
    })
parse_stats_d_line-line_text_example =
    parse_stats_d_line-line_text one_digit 9 name two counter half tag [] 2000000000 500000000
      ((refl, tt), refl, refl)
      (
        (refl, tt),
        ((refl, tt), ((refl, (refl, (refl, tt))), ((refl, (refl, (refl, (refl, tt)))), tt))),
      )
      (refl, refl) (((refl, tt), refl, refl, (refl, (refl, (refl, tt)))), tt) (refl, refl, refl)

parse_stats_d_line_outcome_example :
    (parse_stats_d_line one_digit 9 name ≡ failed missing_colon)
    × (parse_stats_d_line one_digit 9 (name ++ colon ∷ two) ≡ failed missing_type)
    × (one_digit two ≡ none
        → parse_stats_d_line one_digit 9 (name ++ colon ∷ join pipe (two ∷ counter ∷ []))
          ≡ failed bad_value)
    × ((v : ℕ)
        → one_digit two ≡ some v
        → (sm : StatsDMetric ℕ) × (parse_stats_d_line one_digit 9
              (name ++ colon ∷ join pipe (two ∷ counter ∷ []))
            ≡ parsed sm)
          × (sm.name ≡ trim_space name)
          × (sm.value ≡ v)
          × (sm.type_ ≡ trim_space counter)
          × (sm.timestamp ≡ 9))
parse_stats_d_line_outcome_example =
    parse_stats_d_line_outcome one_digit 9 name two counter [] (refl, tt)
      ((refl, tt), ((refl, tt), tt))

abbrev number : Json ℕ
number = record {
  marshal = λ n. some (n ∷ []);
  unmarshal = λ text. elim text [ [] ↦ none | n ∷ rest ↦ some n ];
}

-- A packet with the line twice, of which each read at its own time, is stored as two points of the
-- corrected value 4, and a line that cannot be parsed between them is skipped.
abbrev packet : Bytes
packet =
    line_text name two counter half (tag ∷ [])
    ++ (10 ∷ (name ++ (10 ∷ (line_text name two counter half (tag ∷ []) ++ 10 ∷ []))))

stored_twice :
    list_metrics memory number
      (b'h' ∷ [])
      name
      0
      9
      (receive_packet memory number one_digit none (b'h' ∷ []) (λ n. n + 5) packet ([], tt))
    ≡ (5, 4000000000) ∷ (7, 4000000000) ∷ []
unfolding receive_packet receive_lines emit save_metric put_metric set set_raw commit list_metrics
    range_query parse_stats_d_line insert
stored_twice = refl
