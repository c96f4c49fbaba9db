-- ===== src/Topics/Names.antt =====
-- internal/bridge/topics.go: topics of different desks are different topics.
use mathlib.Core.List.{append_cancel_left}
use mqtt_linak.Base.{◌≡◌, refl, [], ◌∷◌, ◌++◌, Text, codes, Lacks}
use mqtt_linak.Topics.{metric_topic}

-- A text is cut at its first slash in one way.
cut_once :
    (a b s t : Text)
    → Lacks b'/' a
    → Lacks b'/' b
    → a ++ b'/' ∷ s ≡ b ++ b'/' ∷ t
    → (a ≡ b) × (s ≡ t)
cut_once [] [] s t _ _ e = (refl, cc)
cut_once [] (d ∷ b) s t _ h e = absurd (h.0 (cc))
cut_once (c ∷ a) [] s t h _ e = absurd (h.0 (cc))
cut_once (c ∷ a) (d ∷ b) s t h k e = let (p, q) = cut_once a b s t h.1 k.1 (cc) in (cc, q)

under_base : (base s t : Text) → base ++ (codes "/" ++ s) ≡ base ++ (codes "/" ++ t) → s ≡ t
under_base base s t e = append_cancel_left (codes "/") s t (append_cancel_left base _ _ e)

-- Two metric topics under one base are equal only if their desk and their leaf are, for ids that
-- hold no slash.
pub metric_topic-injective :
    (base a b l m : Text)
    → Lacks b'/' a
    → Lacks b'/' b
    → metric_topic base a l ≡ metric_topic base b m
    → (a ≡ b) × (l ≡ m)
unfolding metric_topic
metric_topic-injective base a b l m h k e = cut_once a b l m h k (under_base base _ _ e)
