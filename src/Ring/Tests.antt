-- ===== src/Ring/Tests.antt =====
-- A ring of two slots, with a codec for the tests.
use kilix_system_monitor.Prelude.{
  ℕ, zero, suc, ◌+◌, ◌*◌, ◌%◌, ◌/◌, ◌≤◌, ◌<◌, ◌≡◌, ◌⊎◌, refl, true, Option, none, some, List, [],
  ◌∷◌, ◌++◌, length, arith,
}
use kilix_system_monitor.Ring.{Bytes, Ring, is_open, ring_magic, empty_header, header_size, offset}
use kilix_system_monitor.Ring.Exchange.{
  Codec, Packed, pack, publish, publish_until, written, latest, history,
}
use kilix_system_monitor.Ring.Fit.{search_fit, IsBoundary, fit_processes, fit_processes-IsBoundary}
use kilix_system_monitor.Ring.Layout.{offset-apart}
use kilix_system_monitor.Ring.Copy.{latest-publish_until, IsOther}
use kilix_system_monitor.Ring.Latest.{IsPublishable, latest-publish}
use kilix_system_monitor.Ring.History.{history-publish}

-- A sequence number and two times, encoded one after the other.
abbrev Sample : Type 0
Sample = ℕ × ℕ × ℕ

abbrev dumps : Sample → Bytes
dumps s = s.0 ∷ s.1 ∷ s.2 ∷ []

abbrev loads : Bytes → Option Sample
loads (a ∷ b ∷ c ∷ []) = some (a, b, c)
loads bytes = none

abbrev compress : Bytes → Bytes
compress (a ∷ b ∷ c ∷ []) = a ∷ (b + c * 1000) ∷ []
compress bytes = bytes

abbrev decompress : Bytes → Option Bytes
decompress (a ∷ b ∷ []) = some (a ∷ b % 1000 ∷ b / 1000 ∷ [])
decompress bytes = some bytes

abbrev codec : Codec
codec = record {
  Snapshot = Sample;
  sequence = λ s. s.0;
  monotonic_ns = λ s. s.1;
  wall_time_ns = λ s. s.2;
  dumps = dumps;
  loads = loads;
  compress = compress;
  decompress = decompress;
  crc32 = λ bytes. length bytes;
}

abbrev blank : Ring
blank = record {
  size = header_size + 2 * 65536;
  header = record {
    magic = ring_magic;
    major = 1;
    header_bytes = header_size;
    slot_count = 2;
    slot_size = 65536;
    latest = 0;
    started_ns = 10;
    heartbeat = 10;
  };
  slots = λ i. record { header = empty_header; body = [] };
}

abbrev first_sample : Sample
first_sample = (1, 100, 7)

abbrev second_sample : Sample
second_sample = (2, 200, 8)

abbrev packed : Sample → Packed
packed s = pack compress (dumps s)

abbrev after_first : Ring
after_first = publish codec first_sample (packed first_sample) 100 blank

first-IsPublishable : IsPublishable codec blank first_sample
unfolding pack
first-IsPublishable = (omega arith, omega arith, omega arith, omega arith, omega arith, refl, refl)

second-IsPublishable : IsPublishable codec after_first second_sample
unfolding pack publish
second-IsPublishable = (omega arith, omega arith, omega arith, omega arith, omega arith, refl, refl)

open_after_first : is_open after_first ≡ true
unfolding publish
open_after_first = refl

count_after_first : 1 < after_first.header.slot_count
unfolding publish
count_after_first = omega arith

latest_after_first : 1 ≤ after_first.header.latest
unfolding publish
latest_after_first = omega arith

second_next : codec.sequence second_sample ≡ suc after_first.header.latest
unfolding publish
second_next = refl

latest-publish_example :
    latest codec none 150
      (publish codec first_sample (pack compress (dumps first_sample)) 100 blank)
    ≡ some (some first_sample)
latest-publish_example = latest-publish codec blank first_sample 100 150 refl first-IsPublishable

history-publish_example :
    (before : List Sample) × (history codec (some 1) none 250 after_first ≡ some before)
    × (history codec
          (some 2)
          none
          250
          (publish codec second_sample (pack compress (dumps second_sample)) 200 after_first)
        ≡ some (before ++ second_sample ∷ []))
history-publish_example =
    history-publish codec after_first second_sample 1 200 250 open_after_first second-IsPublishable
      second_next count_after_first latest_after_first

-- A third sample goes to the slot of the first.
abbrev third_sample : Sample
third_sample = (3, 300, 9)

abbrev after_second : Ring
after_second = publish codec second_sample (packed second_sample) 200 after_first

third_apart : IsOther codec after_second third_sample after_second.header.latest
unfolding publish
third_apart = (omega arith, omega arith, (λ same. omega (arith, same)), omega arith, omega arith)

latest-publish_until_example :
    latest codec
      (some 500)
      300
      (publish_until codec written third_sample (packed third_sample) after_second)
    ≡ latest codec (some 500) 300 after_second
latest-publish_until_example =
    latest-publish_until codec written third_sample (packed third_sample) after_second (some 500)
      300 third_apart

offset-apart_example :
    (header_size ≤ offset 2 65536 4)
    × (offset 2 65536 4 + 65536 ≤ blank.size)
    × ((offset 2 65536 4 + 65536 ≤ offset 2 65536 5)
        ⊎ (offset 2 65536 5 + 65536 ≤ offset 2 65536 4))
offset-apart_example =
    offset-apart blank 4 5 refl (omega arith) (omega arith) (λ same. omega (arith, same))
      (omega arith) (omega arith)

-- Each process takes ten bytes of a slot of 35.
abbrev bytes_of : ℕ → Bytes
bytes_of zero = []
bytes_of (suc n) = 0 ∷ bytes_of n

abbrev candidate : ℕ → Packed
candidate count = record { payload = bytes_of (count * 10); flags = 0; raw_size = count * 10 }

fit_processes_run : fit_processes candidate 35 9 ≡ some 3
unfolding fit_processes search_fit
fit_processes_run = refl

fit_processes-IsBoundary_example : IsBoundary candidate 35 9 (fit_processes candidate 35 9)
fit_processes-IsBoundary_example = fit_processes-IsBoundary candidate 35 9
