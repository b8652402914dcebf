-- ===== src/LayoutImport/Components/Ends.antt =====
-- How the loop of extractShapes over the pixels ends.
use omnixys_seat_service.Base.{
  ℕ, zero, suc, ◌+◌, ◌*◌, ◌≤◌, ◌<◌, ◌≡◌, refl, sym, ◌∙◌, ap, ◌≢◌, inl, inr, true, List, [], ◌∷◌,
  ◌++◌, ◌==◌, ==_iff, ltb, length, arith, Bool-cases, subst,
}
use omnixys_seat_service.LayoutImport.Recognizer.{
  PreparedLayoutSource, source_too_complex, Recognized, done, failed, ◌>>=◌,
}
use omnixys_seat_service.LayoutImport.Flood.Defs.{Connected, here, step}
use omnixys_seat_service.LayoutImport.Flood.Fuel.{unmarked-none}
use omnixys_seat_service.LayoutImport.Components.{
  Component, is_dark, is_candidate, max_components, max_candidates, Scan, add_candidate, flood_from,
  scan_pixel, scan_pixels, find_components,
}
use omnixys_seat_service.LayoutImport.Components.Grid.{IsNear}
use omnixys_seat_service.LayoutImport.Components.Labelling.{IsScan, flooded-IsScan}

module _ (source : PreparedLayoutSource) (threshold : ℕ)
    (full : length source.pixels ≡ source.height * source.width) (low : threshold < 255) where
  -- How the loop can stand behind a pixel: it goes on, or the image is too complex.
  abbrev pub Ends : ℕ → Recognized Scan → Type 0
  Ends index (done s) = IsScan source threshold index s
  Ends index (failed e) = (e ≡ source_too_complex) × (max_candidates < index)

  length-snoc : (cs : List Component) (c : Component) → length (cs ++ c ∷ []) ≡ suc (length cs)
  length-snoc [] c = refl
  length-snoc (x ∷ cs) c = ap suc (length-snoc cs c)

  add_candidate-Ends :
      (index : ℕ) (s : Scan) (c : Component)
      → length s.components ≤ index
      → ((components : List Component)
          → length components ≤ suc (length s.components)
          → IsScan source threshold (suc index) (record s { components = components }))
      → Ends (suc index) (add_candidate s c)
  add_candidate-Ends index s c few h = elim (Bool-cases (is_candidate c)) [
    | inl i ↦ elim (Bool-cases (ltb max_candidates (suc (length s.components)))) [
      | inl full ↦ rw (i, full) (refl, ground arith)
      | inr room ↦
          rw (i, room) (h (s.components ++ c ∷ []) (omega (arith, length-snoc s.components c)))
    ]
    | inr i ↦ rw i (h s.components (omega arith))
  ]

  -- A pixel that is light or labelled.
  skip-IsScan :
      (index : ℕ) (s : Scan)
      → IsScan source threshold index s
      → (is_dark source threshold index ≡ true → s.labels index ≢ 0)
      → IsScan source threshold (suc index) s
  skip-IsScan index s h n = record {
    labelling = h.labelling;
    covered = λ q lt d. elim (Bool-cases (q == index)) [
      | inl e ↦
          let same = (==_iff q index).0 e in
          subst (λ x. s.labels x ≢ 0) (sym same)
            (n (subst (λ x. is_dark source threshold x ≡ true) same d))
      | inr e ↦ h.covered q (ground arith) d
    ];
    few = omega (arith, h.few);
    candidates = h.candidates;
    counted = h.counted;
  }

  scan_pixel-Ends :
      (index : ℕ) (s : Scan)
      → IsScan source threshold index s
      → Ends (suc index) (scan_pixel source threshold index s)
  unfolding scan_pixel
  scan_pixel-Ends index s h = elim (Bool-cases (is_dark source threshold index)) [
    | inr light ↦ rw light (skip-IsScan index s h (λ d. cc))
    | inl d ↦ elim (Bool-cases (s.labels index == 0)) [
      | inr old ↦ rw (d, old) (skip-IsScan index s h (λ _ z. ground arith))
      | inl z ↦ elim (Bool-cases (ltb max_components (suc s.component_count))) [
        | inl over ↦ rw (d, z, over) (refl, ground (arith, h.few))
        | inr room ↦
            let r = flood_from source threshold index s in
            rw (d, z, room)
              (add_candidate-Ends index
                (record s {
                  labels = r.0;
                  component_count = suc s.component_count;
                  dark_count = s.dark_count + r.2.size;
                })
                r.2 (omega (arith, h.few, h.candidates))
                (λ components short.
                  flooded-IsScan source threshold full low index s h d ((==_iff _ 0).0 z) components
                    (omega (arith, h.candidates))))
      ]
    ]
  ]

  scan_on-Ends :
      (index n : ℕ) (r : Recognized Scan) (f : Scan → Recognized Scan)
      → Ends (suc index) r
      → suc index ≤ n
      → ((s : Scan) → IsScan source threshold (suc index) s → Ends n (f s))
      → Ends n (r >>= f)
  scan_on-Ends index n (done s) f h le next = next s h
  scan_on-Ends index n (failed e) f h le next = (h.0, omega arith)

  scan_pixels-Ends :
      (rounds index n : ℕ) (s : Scan)
      → index + rounds ≡ n
      → IsScan source threshold index s
      → Ends n (scan_pixels source threshold rounds index s)
  unfolding scan_pixels
  scan_pixels-Ends zero index n s e h =
      let same : index ≡ n = omega arith in subst (λ x. IsScan source threshold x s) same h
  scan_pixels-Ends (suc rounds) index n s e h =
      scan_on-Ends index n (scan_pixel source threshold index s)
        (λ s'. scan_pixels source threshold rounds (suc index) s') (scan_pixel-Ends index s h)
        (omega arith) (λ s' h'. scan_pixels-Ends rounds (suc index) n s' (omega arith) h')

  start-IsScan :
      IsScan source threshold 0
        (record { labels = λ _. 0; components = []; component_count = 0; dark_count = 0 })
  start-IsScan = record {
    labelling = record {
      opened = λ q h. absurd (h refl);
      spread = λ q r h o near. inl refl;
      marked = λ q a. absurd a;
      connected = λ p q h e. absurd (h refl);
      bounded = λ q. omega arith;
    };
    covered = λ q lt d. absurd (omega arith);
    few = omega arith;
    candidates = omega arith;
    counted = omega (arith, unmarked-none (length source.pixels));
  }

  -- The loop ends at the last pixel, or the image has more than 10,000.
  pub find_components-Ends : Ends (length source.pixels) (find_components source threshold)
  unfolding find_components
  find_components-Ends =
      scan_pixels-Ends (length source.pixels) 0 (length source.pixels) _ (omega arith) start-IsScan

  -- Connected pixels have one label.
  pub connected-same :
      (s : Scan)
      → IsScan source threshold (length source.pixels) s
      → (p q : ℕ) → s.labels p ≢ 0
      → Connected (is_dark source threshold) (IsNear source.width) p q
      → s.labels p ≡ s.labels q
  connected-same s h p q n here = refl
  connected-same s h p q n (step {q = m} c d near) =
      let same = connected-same s h p m n c in
      elim (h.labelling.spread m q (λ z. n (same ∙ z)) d near) [
        | inl e ↦ same ∙ sym e
        | inr (a, _) ↦ absurd a
      ]
