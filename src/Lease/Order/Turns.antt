-- ===== src/Lease/Order/Turns.antt =====
-- The loop of `order` seen from the group whose turn it is: the three groups rotate.
use kilix_system_monitor.Prelude.{
  ℕ, zero, suc, ◌+◌, ◌*◌, ◌≤◌, ◌<◌, ◌≡◌, refl, ap, true, false, some, List, [], ◌∷◌, arith,
  get_elem?,
}
use kilix_system_monitor.Lease.Entry.{Workload, tts_utterance, stt_job, llm_turn, Entry}
use kilix_system_monitor.Lease.Order.{following, Groups, group, any_group, rounds}

-- The group whose turn it is comes first, the one after it second.
unfoldable pub turns : ℕ → List Entry → List Entry → List Entry → List Entry
turns zero a b c = []
turns (suc f) (x ∷ a) b c = x ∷ turns f b c a
turns (suc f) [] b c = elim (any_group [] b c) [ true ↦ turns f b c [] | false ↦ [] ]

mutual
  unfolding rounds turns following

  rounds_tts :
      (f : ℕ) (a b c : List Entry)
      → rounds f (record { tts = a; stt = b; llm = c }) tts_utterance ≡ turns f a b c
  rounds_tts zero a b c = refl
  rounds_tts (suc f) [] [] [] = refl
  rounds_tts (suc f) [] [] (z ∷ c) = rounds_stt f [] [] (z ∷ c)
  rounds_tts (suc f) [] (y ∷ b) c = rounds_stt f [] (y ∷ b) c
  rounds_tts (suc f) (x ∷ a) b c = ap (◌∷◌ x) (rounds_stt f a b c)

  rounds_stt :
      (f : ℕ) (a b c : List Entry)
      → rounds f (record { tts = a; stt = b; llm = c }) stt_job ≡ turns f b c a
  rounds_stt zero a b c = refl
  rounds_stt (suc f) [] [] [] = refl
  rounds_stt (suc f) [] [] (z ∷ c) = rounds_llm f [] [] (z ∷ c)
  rounds_stt (suc f) (x ∷ a) [] [] = rounds_llm f (x ∷ a) [] []
  rounds_stt (suc f) (x ∷ a) [] (z ∷ c) = rounds_llm f (x ∷ a) [] (z ∷ c)
  rounds_stt (suc f) [] (y ∷ b) c = ap (◌∷◌ y) (rounds_llm f [] b c)
  rounds_stt (suc f) (x ∷ a) (y ∷ b) c = ap (◌∷◌ y) (rounds_llm f (x ∷ a) b c)

  rounds_llm :
      (f : ℕ) (a b c : List Entry)
      → rounds f (record { tts = a; stt = b; llm = c }) llm_turn ≡ turns f c a b
  rounds_llm zero a b c = refl
  rounds_llm (suc f) [] [] [] = refl
  rounds_llm (suc f) (x ∷ a) b [] = rounds_tts f (x ∷ a) b []
  rounds_llm (suc f) [] (y ∷ b) [] = rounds_tts f [] (y ∷ b) []
  rounds_llm (suc f) [] [] (z ∷ c) = ap (◌∷◌ z) (rounds_tts f [] [] c)
  rounds_llm (suc f) [] (y ∷ b) (z ∷ c) = ap (◌∷◌ z) (rounds_tts f [] (y ∷ b) c)
  rounds_llm (suc f) (x ∷ a) b (z ∷ c) = ap (◌∷◌ z) (rounds_tts f (x ∷ a) b c)

pub rounds-turns :
    (f : ℕ) (g : Groups) (k : Workload)
    → rounds f g k ≡ turns f (group g k) (group g (following k)) (group g (following (following k)))
unfolding following
rounds-turns f g tts_utterance = rounds_tts f g.tts g.stt g.llm
rounds-turns f g stt_job = rounds_stt f g.tts g.stt g.llm
rounds-turns f g llm_turn = rounds_llm f g.tts g.stt g.llm

-- `x` stands in the order, at most `bound` places from its head.
abbrev pub Serves : List Entry → ℕ → Entry → Type 0
Serves l bound x = (p : ℕ) × (get_elem? l p ≡ some x) × (p ≤ bound)

-- One place further back behind a served entry.
Serves-cons :
    (y x : Entry) (l : List Entry) (m n : ℕ) → m + 1 ≤ n → Serves l m x → Serves (y ∷ l) n x
Serves-cons y x l m n h (p, at, le) = (suc p, at, omega arith)

pub Serves-weaken : (x : Entry) (l : List Entry) (m n : ℕ) → m ≤ n → Serves l m x → Serves l n x
Serves-weaken x l m n h (p, at, le) = (p, at, omega arith)

-- With rank `i` in its group, an entry is served within `3 * i` turns of its group's next one.
mutual
  unfolding turns

  pub Serves-first :
      (f : ℕ) (a b c : List Entry) (i : ℕ) (x : Entry)
      → get_elem? a i ≡ some x
      → 3 * i < f
      → Serves (turns f a b c) (3 * i) x
  Serves-first zero a b c i x e h = absurd (omega arith)
  Serves-first (suc f) [] b c i x e h = cc
  Serves-first (suc f) (y ∷ a) b c zero x e h = (0, e, omega arith)
  Serves-first (suc f) (y ∷ a) b c (suc i) x e h =
      Serves-cons y x (turns f b c a) (3 * i + 2) (3 * suc i) (omega arith)
        (Serves-third f b c a i x e (omega arith))

  pub Serves-second :
      (f : ℕ) (a b c : List Entry) (i : ℕ) (x : Entry)
      → get_elem? b i ≡ some x
      → 3 * i + 1 < f
      → Serves (turns f a b c) (3 * i + 1) x
  Serves-second zero a b c i x e h = absurd (omega arith)
  Serves-second (suc f) [] [] c i x e h = cc
  Serves-second (suc f) [] (z ∷ b) c i x e h =
      let (p, at, le) = Serves-first f (z ∷ b) c [] i x e (omega arith) in (p, at, omega arith)
  Serves-second (suc f) (y ∷ a) b c i x e h =
      Serves-cons y x (turns f b c a) (3 * i) (3 * i + 1) (omega arith)
        (Serves-first f b c a i x e (omega arith))

  pub Serves-third :
      (f : ℕ) (a b c : List Entry) (i : ℕ) (x : Entry)
      → get_elem? c i ≡ some x
      → 3 * i + 2 < f
      → Serves (turns f a b c) (3 * i + 2) x
  Serves-third zero a b c i x e h = absurd (omega arith)
  Serves-third (suc f) [] b [] i x e h = cc
  Serves-third (suc f) [] [] (z ∷ c) i x e h =
      let (p, at, le) = Serves-second f [] (z ∷ c) [] i x e (omega arith) in (p, at, omega arith)
  Serves-third (suc f) [] (w ∷ b) (z ∷ c) i x e h =
      let (p, at, le) = Serves-second f (w ∷ b) (z ∷ c) [] i x e (omega arith) in
      (p, at, omega arith)
  Serves-third (suc f) (y ∷ a) b c i x e h =
      Serves-cons y x (turns f b c a) (3 * i + 1) (3 * i + 2) (omega arith)
        (Serves-second f b c a i x e (omega arith))
