-- ===== src/Tests/Texts.antt =====
-- Runs of the operations on texts.
use distributed_apps_platfor.Base.{◌≡◌, refl, [], ◌∷◌, splitlines, join, has_text, true, false}

splitlines_run : splitlines "ab\ncd\n" ≡ "ab" ∷ "cd" ∷ []
unfolding splitlines
splitlines_run = refl

join_run :
    (join "/tmp" "a.pcap" ≡ "/tmp/a.pcap")
    × (join "/tmp" "/x/a" ≡ "/x/a")
    × (join "/tmp/" "a" ≡ "/tmp/a")
unfolding join
join_run = (refl, refl, refl)

has_text_run : (has_text "lyd" "a lydian" ≡ true) × (has_text "lyd" "a lyian" ≡ false)
unfolding has_text
has_text_run = (refl, refl)
