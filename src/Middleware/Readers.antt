-- ===== src/Middleware/Readers.antt =====
-- The readers of the call log in contracts/router-middleware/src/lib.rs.
use stellar_router.Prelude.{
  ℕ, zero, suc, ◌+◌, ◌-◌, ◌%◌, ◌≤◌, ◌<◌, ◌++◌, Bool, true, false, Option, some, List, [], ◌∷◌, ◌≡◌,
  refl, sym, ap, ◌∙◌, inl, inr, arith, length, ◌==◌, filter, if◌then◌else◌, Bool-cases,
}
use native.Mathlib.Nat.{mod-eq_of_lt, add-mod_left}
use mathlib.Core.List.{append_assoc, append-nil}
use stellar_router.Prelude.Sequence.{
  get_elem?, take, drop, rotate, drop-eq-cons, take-length, length-drop,
}
use stellar_router.Middleware.{CallLogEntry, CallLogState}
use stellar_router.Middleware.CallLog.{push_if, included, collect, ordered_entries}
use stellar_router.Middleware.Ring.{
  Place, grows, fills, turns, IsRing, contents, contents-filling, contents-grows,
}

push_if-some :
    (wanted : Option Bool) (entry : CallLogEntry) (ordered : List CallLogEntry)
    → push_if wanted (some entry) ordered ≡ ordered ++ filter (included wanted) (entry ∷ [])
push_if-some wanted entry ordered = ground (arith, append-nil ordered)

push-append :
    (b : Bool) (x : CallLogEntry) (xs ys zs : List CallLogEntry)
    → zs ≡ xs ++ ys
    → (if b then x ∷ zs else zs) ≡ (if b then x ∷ xs else xs) ++ ys
push-append true x xs ys zs h = ap (λ ws. x ∷ ws) h
push-append false x xs ys zs h = h

filter-append :
    (p : CallLogEntry → Bool) (xs ys : List CallLogEntry)
    → filter p (xs ++ ys) ≡ filter p xs ++ filter p ys
filter-append p [] ys = refl
filter-append p (x ∷ xs) ys =
    push-append (p x) x (filter p xs) (filter p ys) (filter p (xs ++ ys)) (filter-append p xs ys)

index-at : (index : ℕ → ℕ) (i a : ℕ) → index (i + 0) ≡ a + 0 → index i ≡ a
index-at index i a h = ap index (omega arith) ∙ h ∙ omega arith

-- A loop over consecutive places pushes the entries there that pass the filter.
collect_lem :
    (wanted : Option Bool) (entries : List CallLogEntry) (index : ℕ → ℕ) (n i a : ℕ)
    (ordered : List CallLogEntry)
    → ((k : ℕ) → k < n → index (i + k) ≡ a + k)
    → a + n ≤ length entries
    → collect wanted entries index n i ordered
      ≡ ordered ++ filter (included wanted) (take n (drop a entries))
unfolding collect
collect_lem wanted entries index zero i a ordered h l = sym (append-nil ordered)
collect_lem wanted entries index (suc n) i a ordered h l =
    let (x, e, d) = drop-eq-cons a entries (omega arith) in
    let p : CallLogEntry → Bool = included wanted in
    ap (λ o. collect wanted entries index n (i + 1) (push_if wanted o ordered))
      (ap (get_elem? entries) (index-at index i a (h 0 (omega arith))) ∙ e)
    ∙ ap (collect wanted entries index n (i + 1)) (push_if-some wanted x ordered)
    ∙ collect_lem wanted entries index n (i + 1) (suc a) (ordered ++ filter p (x ∷ []))
        (λ k l'. ap index (omega arith) ∙ h (k + 1) (omega arith) ∙ omega arith) (omega arith)
    ∙ append_assoc ordered (filter p (x ∷ [])) (filter p (take n (drop (suc a) entries)))
    ∙ ap (λ zs. ordered ++ zs) (sym (filter-append p (x ∷ []) (take n (drop (suc a) entries))))
    ∙ ap (λ zs. ordered ++ filter p (take (suc n) zs)) (sym d)

-- A loop can stop and go on.
collect-split :
    (wanted : Option Bool) (entries : List CallLogEntry) (index : ℕ → ℕ) (m n i r j : ℕ)
    (ordered : List CallLogEntry)
    → r ≡ m + n
    → j ≡ i + m
    → collect wanted entries index r i ordered
      ≡ collect wanted entries index n j (collect wanted entries index m i ordered)
unfolding collect
collect-split wanted entries index zero n i r j ordered h k =
    ap (λ r. collect wanted entries index r i ordered) {x = r} {y = n} (omega arith)
    ∙ ap (λ i. collect wanted entries index n i ordered) {x = i} {y = j} (omega arith)
collect-split wanted entries index (suc m) n i r j ordered h k =
    ap (λ r. collect wanted entries index r i ordered) {x = r} {y = suc (m + n)} (omega arith)
    ∙ collect-split wanted entries index m n (i + 1) (m + n) j
        (push_if wanted (get_elem? entries (index i)) ordered) refl (omega arith)

-- The loop from the head, around the end.
collect-rotate :
    (wanted : Option Bool) (entries : List CallLogEntry) (cap head : ℕ)
    → cap ≡ length entries
    → head < cap
    → collect wanted entries (λ i. (head + i) % cap) cap 0 []
      ≡ filter (included wanted) (rotate head entries)
collect-rotate wanted entries cap head l h =
    let index : ℕ → ℕ = λ i. (head + i) % cap in
    let p : CallLogEntry → Bool = included wanted in
    let first : List CallLogEntry = filter p (take (cap - head) (drop head entries)) in
    collect-split wanted entries index (cap - head) head 0 cap (cap - head) [] (omega arith)
      (omega arith)
    ∙ ap (collect wanted entries index head (cap - head)) (
        collect_lem wanted entries index (cap - head) 0 head []
          (λ k l'. ap (λ j. j % cap) {y = head + k} (omega arith) ∙ mod-eq_of_lt (omega arith))
          (omega arith))
    ∙ collect_lem wanted entries index head (cap - head) 0 first
        (λ k l'.
          ap (λ j. j % cap) {y = cap + k} (omega arith)
          ∙ add-mod_left cap k
          ∙ mod-eq_of_lt (omega arith)
          ∙ omega arith)
        (omega arith)
    ∙ ap (λ zs. filter p zs ++ filter p (take head entries))
        (take-length (cap - head) (drop head entries) (omega (arith, length-drop head entries)))
    ∙ sym (filter-append p (drop head entries) (take head entries))

collect-start :
    (wanted : Option Bool) (entries : List CallLogEntry) (count : ℕ)
    → count ≤ length entries
    → collect wanted entries (λ i. i) count 0 [] ≡ filter (included wanted) (take count entries)
collect-start wanted entries count h =
    collect_lem wanted entries (λ i. i) count 0 0 [] (λ k l. refl) (omega arith)

module _ (wanted : Option Bool) (log : CallLogState) where
  read-none : log.count ≡ 0 → ordered_entries wanted log ≡ []
  unfolding ordered_entries
  read-none h = ground arith

  read-filling :
      log.count < length log.entries
      → ordered_entries wanted log ≡ filter (included wanted) (contents log)
  unfolding ordered_entries
  read-filling h = elim (Bool-cases (log.count == 0)) [
    | inl t ↦
        read-none (ground arith)
        ∙ ap (λ n. filter (included wanted) (take n log.entries)) {x = 0} {y = log.count}
            (ground arith)
        ∙ ap (filter (included wanted)) (sym (contents-filling log h))
    | inr f ↦
        ground
          (arith, collect-start wanted log.entries log.count (omega arith), contents-filling log h)
  ]

  read-full :
      0 < length log.entries
      → length log.entries ≤ log.count
      → log.head < length log.entries
      → ordered_entries wanted log ≡ filter (included wanted) (contents log)
  unfolding ordered_entries
  read-full p l h =
      ground (arith, collect-rotate wanted log.entries (length log.entries) log.head refl h)

read-at :
    (wanted : Option Bool) (cap : ℕ) (log : CallLogState)
    → 0 < cap
    → Place cap log
    → ordered_entries wanted log ≡ filter (included wanted) (contents log)
read-at wanted cap log p (grows l c h) = elim (Bool-cases (log.count == 0)) [
  | inl t ↦
      read-none wanted log (ground arith)
      ∙ ap (filter (included wanted))
          (take-length 0 log.entries (ground arith) ∙ sym (contents-grows log l h))
  | inr f ↦ read-full wanted log (ground arith) (omega arith) (ground arith)
]
read-at wanted cap log p (fills l c h) = read-filling wanted log (omega arith)
read-at wanted cap log p (turns l c h) =
    read-full wanted log (omega arith) (omega arith) (omega arith)

-- On a ring buffer, the query for the entries of one kind, or of both, lists in order those of the
-- buffer's contents.
pub ordered_entries-IsRing :
    (wanted : Option Bool) (cap : ℕ) (log : CallLogState)
    → IsRing cap log
    → ordered_entries wanted log ≡ filter (included wanted) (contents log)
ordered_entries-IsRing wanted cap log r = read-at wanted cap log r.positive r.place
