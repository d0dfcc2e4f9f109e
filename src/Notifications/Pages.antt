-- ===== src/Notifications/Pages.antt =====
-- What a page of notifications holds, and that pages follow one another without gap or overlap.
use driveparts_websockets.Prelude.{
  ℕ, zero, suc, ◌+◌, ◌≤◌, ◌<◌, ◌≡◌, ◌≢◌, ◌∙◌, refl, sym, ap, Bool, true, false, ◌&&◌, Option, none,
  some, List, [], ◌∷◌, String, arith, ltb, ◌==◌, any, length, take, drop, keep, All, sort_by,
  length-take-le, length-take, take-take,
}
use mathlib.Core.Path.{subst}
use driveparts_websockets.Prelude.Sorting.{
  length-reverse, All-take, All-sort_by, All-reverse, All-kept, Ascending, Distinct,
  sort_by-Ascending, keep-sort_by, keep-Distinct, keep-keep, keep_congr,
}
use driveparts_websockets.Mongo.{SortedReads}
use driveparts_websockets.Mongo.Unique.{IsUnique}
use driveparts_websockets.Notifications.{Notification, conflicts}
use driveparts_websockets.Notifications.Listing.{
  ListInput, NotificationPage, wanted, last, page_of, list_before, list_from, list_notifications,
}

abbrev number : Notification → ℕ
number d = d._id

abbrev Wanted : ListInput → Notification → Type 0
Wanted input d = wanted input d ≡ true

page_of-bounds :
    (input : ListInput) (forwards : Bool) (candidates : List Notification)
    → All (Wanted input) candidates
    → All (Wanted input) (page_of input.limit forwards candidates).notifications
      × (length (page_of input.limit forwards candidates).notifications ≤ input.limit)
page_of-bounds input true candidates h =
    (All-take (Wanted input) input.limit candidates h, length-take-le input.limit candidates)
page_of-bounds input false candidates h = (
  All-reverse (Wanted input) _ (All-take (Wanted input) input.limit candidates h),
  rw length-reverse (length-take-le input.limit candidates),
)

weaken :
    (input : ListInput) (p : Notification → Bool) (xs : List Notification)
    → All (λ d. (wanted input d && p d) ≡ true) xs
    → All (Wanted input) xs
weaken input p [] h = tt
weaken input p (x ∷ xs) h = (ground arith, weaken input p xs h.1)

module _ (object_id_of : String → Option ℕ) (reads : SortedReads Notification (λ d. d._id)) where
  abbrev Good : ListInput → NotificationPage → Type 0
  Good input page =
      All (Wanted input) page.notifications × (length page.notifications ≤ input.limit)

  list_before-bounds :
      (input : ListInput) (o : Option ℕ) (docs : List Notification)
      → Good input (list_before object_id_of reads input o docs)
  list_before-bounds input none docs = rw reads.newest_first_lem (
      page_of-bounds input false _ (
        All-take (Wanted input) (input.limit + 1) _ (
          All-reverse (Wanted input) _
            (All-sort_by (Wanted input) number _ (All-kept (wanted input) docs)))))
  list_before-bounds input (some before) docs =
      let p : Notification → Bool = λ d. ltb d._id before in
      rw reads.newest_first_lem (
        page_of-bounds input false _ (
          All-take (Wanted input) (input.limit + 1) _ (
            All-reverse (Wanted input) _ (
              All-sort_by (Wanted input) number _
                (weaken input p _ (All-kept (λ d. wanted input d && p d) docs))))))

  list_from-bounds :
      (input : ListInput) (o : Option ℕ) (docs : List Notification)
      → Good input (list_from object_id_of reads input o docs)
  list_from-bounds input none docs = list_before-bounds input _ docs
  list_from-bounds input (some after) docs =
      let p : Notification → Bool = λ d. ltb after d._id in
      rw reads.oldest_first_lem (
        page_of-bounds input true _ (
          All-take (Wanted input) (input.limit + 1) _ (
            All-sort_by (Wanted input) number _
              (weaken input p _ (All-kept (λ d. wanted input d && p d) docs)))))

  -- Whatever ids the request names, a page holds at most `limit` notifications, each of the store,
  -- visible to the user, and unread if only unread ones are asked for.
  pub list_notifications-wanted :
      (input : ListInput) (docs : List Notification)
      → All
          (λ d. wanted input d ≡ true)
          (list_notifications object_id_of reads input docs).notifications
        × (length (list_notifications object_id_of reads input docs).notifications ≤ input.limit)
  unfolding list_notifications
  list_notifications-wanted input docs = list_from-bounds input _ docs

-- The newest id of a page of an ascending list splits the list: what is newer is what follows the page.
last_above :
    (m n b : ℕ) (xs : List Notification)
    → All (λ y. m < y._id) xs
    → last (take n xs) ≡ some b
    → m < b
last_above m zero b xs a h = absurd (ground arith)
last_above m (suc n) b [] a h = absurd (ground arith)
last_above m (suc zero) b (x ∷ xs) a h = ground arith
last_above m (suc (suc n)) b (x ∷ []) a h = ground arith
last_above m (suc (suc n)) b (x ∷ y ∷ xs) a h = last_above m (suc n) b (y ∷ xs) a.1 h

keep-All_above :
    (m : ℕ) (xs : List Notification) → All (λ y. m < y._id) xs → keep (λ d. ltb m d._id) xs ≡ xs
keep-All_above m [] a = refl
keep-All_above m (x ∷ xs) a = ground (arith, keep-All_above m xs a.1)

keep_after_first :
    (x : Notification) (xs : List Notification)
    → All (λ y. x._id < y._id) xs
    → keep (λ d. ltb x._id d._id) (x ∷ xs) ≡ xs
keep_after_first x xs a = ground (arith, keep-All_above x._id xs a)

keep_after_page :
    (n b : ℕ) (xs : List Notification)
    → Ascending number xs
    → last (take n xs) ≡ some b
    → keep (λ d. ltb b d._id) xs ≡ drop n xs
keep_after_page zero b xs a h = absurd (ground arith)
keep_after_page (suc n) b [] a h = absurd (ground arith)
keep_after_page (suc zero) b (x ∷ xs) a h =
    let e : x._id ≡ b = ground arith in
    subst (λ c. keep (λ d. ltb c d._id) (x ∷ xs) ≡ xs) e (keep_after_first x xs a.0)
keep_after_page (suc (suc n)) b (x ∷ []) a h = ground arith
keep_after_page (suc (suc n)) b (x ∷ y ∷ xs) a h =
    ground
      (arith, last_above x._id (suc n) b (y ∷ xs) a.0 h, keep_after_page (suc n) b (y ∷ xs) a.1 h)

any-Distinct :
    (x : Notification) (xs : List Notification)
    → any (conflicts x) xs ≡ false
    → All (λ y. number x ≢ number y) xs
any-Distinct x [] h = tt
any-Distinct x (y ∷ ys) h = (λ e. ground arith, any-Distinct x ys (ground arith))

IsUnique-Distinct : (xs : List Notification) → IsUnique conflicts xs → Distinct number xs
IsUnique-Distinct [] u = tt
IsUnique-Distinct (x ∷ xs) u = (any-Distinct x xs u.0, IsUnique-Distinct xs u.1)

narrow :
    (input : ListInput) (a b : ℕ) (d : Notification)
    → a < b
    → ((wanted input d && ltb a d._id) && ltb b d._id) ≡ (wanted input d && ltb b d._id)
narrow input a b d h = ground arith

-- The matching notifications after the id `a`, in the order of their creation.
abbrev pub following : ListInput → ℕ → List Notification → List Notification
following input a docs = sort_by (λ d. d._id) (keep (λ d. wanted input d && ltb a d._id) docs)

following-drop :
    (input : ListInput) (a b : ℕ) (docs : List Notification)
    → IsUnique conflicts docs
    → last (take input.limit (following input a docs)) ≡ some b
    → following input b docs ≡ drop input.limit (following input a docs)
following-drop input a b docs u h =
    let p : Notification → Bool = λ d. wanted input d && ltb a d._id in
    let q : Notification → Bool = λ d. ltb b d._id in
    let distinct = keep-Distinct number p docs (IsUnique-Distinct docs u) in
    let above : a < b =
      last_above a input.limit b (following input a docs)
        (All-sort_by (λ y. a < y._id) number _ (after_all input a docs)) h in
    ap (sort_by number) (
      sym (
        keep_congr (λ d. p d && q d) (λ d. wanted input d && q d) docs
          (λ d. narrow input a b d above)))
    ∙ ap (sort_by number) (sym (keep-keep q p docs))
    ∙ sym (keep-sort_by number q (keep p docs) distinct)
    ∙ keep_after_page input.limit b (following input a docs)
        (sort_by-Ascending number (keep p docs) distinct) h
  where
    after_all :
        (input : ListInput) (a : ℕ) (docs : List Notification)
        → All (λ y. a < y._id) (keep (λ d. wanted input d && ltb a d._id) docs)
    after_all input a [] = tt
    after_all input a (x ∷ xs) = ground (arith, after_all input a xs)

-- The request for what follows the id in the text `t`.
abbrev pub after_id : ListInput → String → ListInput
after_id input t = record input { after_notification_id = some t }

module _ (object_id_of : String → Option ℕ) (reads : SortedReads Notification (λ d. d._id)) where
  after_page :
      (input : ListInput) (t : String) (a : ℕ) (docs : List Notification)
      → (t == "") ≡ false
      → object_id_of t ≡ some a
      → list_notifications object_id_of reads (after_id input t) docs
        ≡ page_of input.limit true (take (input.limit + 1) (following input a docs))
  unfolding list_notifications
  after_page input t a docs s valid = rw (s, valid, reads.oldest_first_lem)

  -- Paging forwards from the id `a`: the page holds the oldest `limit` of the notifications that
  -- follow `a`, in the order of their creation, and says whether there are more; the next page, asked
  -- for with the newest id of this one, holds the next `limit` of them. No notification is skipped or
  -- sent twice.
  pub pages_follow :
      (input : ListInput) (t s : String) (a b : ℕ) (docs : List Notification)
      → IsUnique conflicts docs
      → (t == "") ≡ false
      → object_id_of t ≡ some a
      → (s == "") ≡ false
      → object_id_of s ≡ some b
      → (list_notifications object_id_of reads (after_id input t) docs).newest_notification_id
        ≡ some b
      → let page = list_notifications object_id_of reads (after_id input t) docs in
        let next = list_notifications object_id_of reads (after_id input s) docs in
        (page.notifications ≡ take input.limit (following input a docs))
        × (page.has_more ≡ ltb input.limit (length (following input a docs)))
        × (next.notifications ≡ take input.limit (drop input.limit (following input a docs)))
  pages_follow input t s a b docs u nt vt ns vs newest =
      let all = following input a docs in
      let n = input.limit in
      let page = after_page input t a docs nt vt in
      let last_b : last (take n all) ≡ some b =
        ap last (sym (take-take n all))
        ∙ ap (λ (p : NotificationPage). p.newest_notification_id) (sym page)
        ∙ newest in
      (
        rw page (take-take n all),
        rw page (ground (arith, length-take (n + 1) all)),
        rw (after_page input s b docs ns vs) (
            take-take n (following input b docs)
            ∙ ap (take n) (following-drop input a b docs u last_b)),
      )
