-- ===== src/Meters/Tests.antt =====
-- The registry with drivers that do nothing, and a meter whose parser takes any buffer.
use power_pack.Measure.{Mm, parsed}
use power_pack.Meters.Read.{cleared, selected, IsParsed, meter_read_cases}
use power_pack.Meters.Registry.{meter_type-meter_name, meter_lookup_lem}
use power_pack.Meters.{
  Driver, Meter, Select, ready, rc_ok, rc_errno, find_type, meters, meter_lookup, meter_name,
  meter_type, meter_alloc_mms, meter_read, receive, conclude,
}
use power_pack.Prelude.Int.{pos, negsuc}
use power_pack.Prelude.{
  ℕ, suc, ◌≤◌, ◌≡◌, ◌≢◌, refl, ◌↔◌, ◌⊎◌, true, Option, none, some, List, [], ◌∷◌, codes, einval,
  enomem, if◌then◌else◌,
}

-- The state is the number of queries made; a read fails, and the parser looks at no byte.
abbrev deaf : Driver ℕ ℕ
deaf = record {
  query = some (λ w. suc w);
  send = none;
  read = λ buf w. record { world = w; count = negsuc 0; buf = buf; status = pos 0 };
  parse = λ buf len mm. parsed [];
}

abbrev at_once : Option ℕ → ℕ → ℕ × Select
at_once timeout w = (w, ready true)

abbrev idle : Mm ℕ
idle = record { value = 7; units = 0; to_sec = 5 }

-- The failed read is not noticed: what the parser accepts is returned as a reading.
failed_read_accepted :
    meter_read 0 at_once deaf deaf deaf deaf (pos 4) [] (some (idle ∷ [])) 0 ≡ (1, rc_ok, some [])
unfolding meter_read meter_lookup meters find_type receive conclude
failed_read_accepted = refl

meter_type-meter_name_run :
    (meter_name deaf deaf deaf deaf (pos 2) ≡ some (codes "protek506"))
    ↔ ((meter_type deaf deaf deaf deaf (codes "protek506") ≡ 2) × (◌≢◌ {A = ℕ} 2 0))
meter_type-meter_name_run = meter_type-meter_name deaf deaf deaf deaf (codes "protek506") 2

meter_lookup_lem_run :
    ((m : Meter ℕ ℕ) × (meter_lookup deaf deaf deaf deaf (pos 3) ≡ some m)
      × (pos 3 ≡ pos m.type)
      × (1 ≤ m.type)
      × (m.type ≤ 4)
      × (1 ≤ m.count)
      × (m.count ≤ 4)
      × (meter_alloc_mms deaf deaf deaf deaf (pos 3) true
          ≡ (if true then (some m.count, rc_ok) else (none, rc_errno enomem))))
    ⊎ ((meter_lookup deaf deaf deaf deaf (pos 3) ≡ none)
        × ((k : ℕ) → 1 ≤ k → k ≤ 4 → pos 3 ≢ pos k)
        × (meter_alloc_mms deaf deaf deaf deaf (pos 3) true ≡ (none, rc_errno einval)))
meter_lookup_lem_run = meter_lookup_lem deaf deaf deaf deaf (pos 3) true

meter_read_cases_example :
    ((meter_lookup deaf deaf deaf deaf (pos 4) ≡ none)
      × (meter_read 0 at_once deaf deaf deaf deaf (pos 4) [] (some (idle ∷ [])) 0
          ≡ (0, rc_errno einval, some (idle ∷ []))))
    ⊎ ((d : Meter ℕ ℕ) × (out : List (Mm ℕ)) × (meter_lookup deaf deaf deaf deaf (pos 4) ≡ some d)
        × ((meter_read 0 at_once deaf deaf deaf deaf (pos 4) [] (some (idle ∷ [])) 0).2 ≡ some out)
        × ((out ≡ cleared 0 idle ∷ [])
            ⊎ IsParsed d.driver []
                (selected at_once d.driver idle.to_sec 0).1
                (selected at_once d.driver idle.to_sec 0).0
                (cleared 0 idle ∷ [])
                (meter_read 0 at_once deaf deaf deaf deaf (pos 4) [] (some (idle ∷ [])) 0).1
                out)
        × ((o : List (Mm ℕ))
            → (selected at_once d.driver idle.to_sec 0).1 ≡ ready true
            → (d.driver.read [] (selected at_once d.driver idle.to_sec 0).0).count ≢ pos 0
            → d.driver.parse
                (some (d.driver.read [] (selected at_once d.driver idle.to_sec 0).0).buf)
                (d.driver.read [] (selected at_once d.driver idle.to_sec 0).0).count
                (some (cleared 0 idle ∷ []))
              ≡ parsed o
            → ((meter_read 0 at_once deaf deaf deaf deaf (pos 4) [] (some (idle ∷ [])) 0).1 ≡ rc_ok)
              × (out ≡ o)))
meter_read_cases_example = meter_read_cases 0 at_once deaf deaf deaf deaf (pos 4) [] idle [] 0
