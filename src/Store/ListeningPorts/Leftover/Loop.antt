-- ===== src/Store/ListeningPorts/Leftover/Loop.antt =====
-- The loop of `ReplaceByServer` and the rows of the server.
use dorian_back_end.Prelude.{
  ◌≡◌, refl, ap, subst, sym, ◌∙◌, Bool, true, false, ◌||◌, none, some, List, [], ◌∷◌, ◌++◌, arith,
  ℤ, All, All-weaken, either_branch, Bool-cases, Option-cases, inl, inr,
}
use dorian_back_end.Action.{
  Result, ok, err, >>=-eq-ok, failed, not_found, invalid, expired, no_schema, too_long, unavailable,
}
use dorian_back_end.Store.Database.{Database, IsDocumented, update, All-update}
use dorian_back_end.Store.ListeningPorts.{
  ListeningPort, ListeningPortInput, PortTables, in_ids, of_server, create, is_port, set_to,
  changes, update_row,
}
use dorian_back_end.Store.ListeningPorts.Replace.{
  KeyMap, Key, or_create, upsert, lookup_key, input_key, normalize_input, in_keys, sync,
}
use dorian_back_end.Store.ListeningPorts.Reported.{update_row_ok}
use dorian_back_end.Store.ListeningPorts.Leftover.Indexed.{
  ids_of, KeyDistinct, pending, pending-missing, pending-found,
}
use dorian_back_end.Store.ListeningPorts.Leftover.Statements.{
  All-both, ids_of-last, create_ok, update_row_rows, update_row_missing,
}

-- Whether a row with this id was returned, is a duplicate, or waits for its key.
abbrev pub accounted : KeyMap → List ℤ → List Key → List ListeningPort → ℤ → Bool
accounted m duplicates seen out id =
    in_ids id (ids_of out) || in_ids id duplicates || pending m seen id

module _ (d : Database PortTables) (doc : IsDocumented d)
    (accepts : ListeningPort → List ListeningPort → Bool) (server_id : ℤ) where
  open d use {State, content, run}

  module _ (m : KeyMap) (duplicates : List ℤ) where
    -- A row of the server is accounted for.
    abbrev pub Accounted : List Key → List ListeningPort → ListeningPort → Type 0
    Accounted seen out row =
        of_server d accepts server_id row ≡ true → accounted m duplicates seen out row.id ≡ true

    -- An update changes no id and no server.
    Accounted-update :
        (seen : List Key) (out : List ListeningPort) (id : ℤ) (input : ListeningPortInput)
        (rows : List ListeningPort)
        → All (Accounted seen out) rows
        → All
            (Accounted seen out)
            (update (changes d accepts server_id id input) (set_to d accepts input) rows)
    Accounted-update seen out id input rows =
        All-update (Accounted seen out) (changes d accepts server_id id input)
          (set_to d accepts input) rows
          (λ row all.
            either_branch (Accounted seen out) (changes d accepts server_id id input row) all all)

    -- The row of a key that has none is created.
    create-Accounted :
        (seen : List Key) (out : List ListeningPort) (k : Key) (input : ListeningPortInput)
        (s t : State) (row : ListeningPort)
        → create d accepts server_id input s ≡ (ok row, t)
        → All (Accounted (k ∷ seen) (out ++ (row ∷ []))) (content s).ports
        → All (Accounted (k ∷ seen) (out ++ (row ∷ []))) (content t).ports
    create-Accounted seen out k input s t row h all =
        rw (create_ok d doc accepts server_id input s t row h)
          ((λ own. ground (arith, ids_of-last row.id out row)), all)

    -- What was accounted for stays so when a row without an entry in the map is returned.
    Accounted-created :
        (seen : List Key) (out : List ListeningPort) (k : Key) (row r : ListeningPort)
        → lookup_key k m ≡ none
        → Accounted seen out r
        → Accounted (k ∷ seen) (out ++ (row ∷ [])) r
    Accounted-created seen out k row r missing all own =
        ground (arith, all own, ids_of-last r.id out row, pending-missing m seen k r.id missing)

    -- Nor does it matter which row is returned for an entry of the map that is gone.
    Accounted-gone :
        (seen : List Key) (out : List ListeningPort) (k : Key) (row current r : ListeningPort)
        → KeyDistinct m
        → lookup_key k m ≡ some current
        → is_port d accepts server_id current.id r ≡ false
        → Accounted seen out r
        → Accounted (k ∷ seen) (out ++ (row ∷ [])) r
    Accounted-gone seen out k row current r distinct there gone all own =
        elim (Bool-cases (pending m seen r.id)) [
          | inr settled ↦ ground (arith, all own, ids_of-last r.id out row)
          | inl waits ↦ ground (
            arith,
            ids_of-last r.id out row,
            pending-found m seen k r.id current distinct there waits,
          )
        ]

    Accounted-updated :
        (seen : List Key) (out : List ListeningPort) (k : Key) (row current r : ListeningPort)
        → KeyDistinct m
        → lookup_key k m ≡ some current
        → row.id ≡ current.id
        → Accounted seen out r
        → Accounted (k ∷ seen) (out ++ (row ∷ [])) r
    Accounted-updated seen out k row current r distinct there same all own =
        elim (Bool-cases (pending m seen r.id)) [
          | inr settled ↦ ground (arith, all own, ids_of-last r.id out row)
          | inl waits ↦ ground (
            arith,
            ids_of-last r.id out row,
            same,
            pending-found m seen k r.id current distinct there waits,
          )
        ]

    or_create-Accounted :
        (seen : List Key) (out : List ListeningPort) (k : Key) (input : ListeningPortInput)
        (current row : ListeningPort) (s t : State) (p : Result ListeningPort × State)
        → KeyDistinct m
        → lookup_key k m ≡ some current
        → update_row d accepts server_id current.id input s ≡ p
        → or_create d accepts server_id input p ≡ (ok row, t)
        → All (Accounted seen out) (content s).ports
        → All (Accounted (k ∷ seen) (out ++ (row ∷ []))) (content t).ports
    or_create-Accounted seen out k input current row s t (ok r, u) distinct there asked h all =
        let same : r ≡ row = ground arith in
        let after : u ≡ t = ap (λ (q : Result ListeningPort × State). q.1) h in
        let named : row.id ≡ current.id =
          ap (λ (q : ListeningPort). q.id)
            (sym same ∙ update_row_ok d accepts server_id current.id input s u r asked) in
        subst (λ (x : State). All (Accounted (k ∷ seen) (out ++ (row ∷ []))) (content x).ports)
          after
          (All-weaken _ _ (content u).ports
            (λ q. Accounted-updated seen out k row current q distinct there named)
            (rw (update_row_rows d doc accepts server_id current.id input s u r asked)
              (Accounted-update seen out current.id input (content s).ports all)))
    or_create-Accounted seen out k input current row s t (err not_found, u) distinct there asked h
          all =
        let (rows, gone) = update_row_missing d doc accepts server_id current.id input s u asked in
        create-Accounted seen out k input u t row h (
          All-both _ _ _ (content u).ports
            (λ q missing before.
              Accounted-gone seen out k row current q distinct there missing before)
            gone (rw rows (Accounted-update seen out current.id input (content s).ports all)))
    or_create-Accounted seen out k input current row s t (err failed, u) distinct there asked h
          all =
        absurd (ground arith)
    or_create-Accounted seen out k input current row s t (err invalid, u) distinct there asked h
          all =
        absurd (ground arith)
    or_create-Accounted seen out k input current row s t (err expired, u) distinct there asked h
          all =
        absurd (ground arith)
    or_create-Accounted seen out k input current row s t (err no_schema, u) distinct there asked h
          all =
        absurd (ground arith)
    or_create-Accounted seen out k input current row s t (err too_long, u) distinct there asked h
          all =
        absurd (ground arith)
    or_create-Accounted seen out k input current row s t (err unavailable, u) distinct there asked h
          all =
        absurd (ground arith)

    upsert-Accounted :
        (seen : List Key) (out : List ListeningPort) (input : ListeningPortInput) (s t : State)
        (row : ListeningPort)
        → KeyDistinct m
        → upsert d accepts server_id m input s ≡ (ok row, t)
        → All (Accounted seen out) (content s).ports
        → All (Accounted (input_key input ∷ seen) (out ++ (row ∷ []))) (content t).ports
    unfolding upsert
    upsert-Accounted seen out input s t row distinct h all =
        elim (Option-cases (lookup_key (input_key input) m)) [
          | inl e ↦
              create-Accounted seen out (input_key input) input s t row (rw (upsert, e) at h) (
                All-weaken _ _ (content s).ports
                  (λ r. Accounted-created seen out (input_key input) row r e) all)
          | inr (current, e) ↦
              or_create-Accounted seen out (input_key input) input current row s t
                (update_row d accepts server_id current.id input s) distinct e refl
                (rw (upsert, e) at h) all
        ]

    -- After the loop every row of the server was returned, is a duplicate, or waits for a key that was not
    -- reported.
    pub sync-Accounted :
        (seen desired : List Key) (out rows : List ListeningPort) (inputs : List ListeningPortInput)
        (s t : State)
        → KeyDistinct m
        → sync d accepts server_id m seen out inputs s ≡ (ok (desired, rows), t)
        → All (Accounted seen out) (content s).ports
        → All (Accounted desired rows) (content t).ports
    unfolding sync
    sync-Accounted seen desired out rows [] s t distinct h all =
        let keys : seen ≡ desired = ground arith in
        let same : out ≡ rows = ground arith in
        let after : s ≡ t = ap (λ (q : Result (List Key × List ListeningPort) × State). q.1) h in
        subst (λ (x : State). All (Accounted desired rows) (content x).ports) after
          (subst (λ (x : List ListeningPort). All (Accounted desired x) (content s).ports) same
            (subst (λ (x : List Key). All (Accounted x out) (content s).ports) keys all))
    sync-Accounted seen desired out rows (input ∷ inputs) s t distinct h all =
        elim (Option-cases (normalize_input input)) [
          | inl e ↦ sync-Accounted seen desired out rows inputs s t distinct (rw (sync, e) at h) all
          | inr (n, e) ↦ elim (Bool-cases (in_keys (input_key n) seen)) [
            | inl old ↦
                sync-Accounted seen desired out rows inputs s t distinct (rw (sync, e, old) at h)
                  all
            | inr new ↦
                let (row, u, asked, rest) =
                  >>=-eq-ok (upsert d accepts server_id m n) _ s (rw (sync, e, new) at h) in
                sync-Accounted (input_key n ∷ seen) desired (out ++ (row ∷ [])) rows inputs u t
                  distinct rest (upsert-Accounted seen out n s u row distinct asked all)
          ]
        ]
