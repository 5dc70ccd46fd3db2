-- ===== src/Server/Proxy/Headers.antt =====
-- What the model server sees of a client's headers, by internal/server/proxy.go.
use llm_file_gateway.Prelude.{
  ◌≡◌, refl, ap, false, ◌||◌, ◌⊎◌, inl, inr, List, [], ◌∷◌, arith, All, All-select, All-map, select,
  Bool-cases,
}
use llm_file_gateway.Prelude.Text.{String, ◌=ˢ◌, ◌+ˢ◌}
use llm_file_gateway.Server.Proxy.{
  Header, hop_by_hop_headers, is_member, add_value, remove_key, connection_headers, add_all,
  is_dropped, copy_entries, copy_headers, upstream_headers,
}

entries_of : String → Header → Header
entries_of key = select λ entry. key =ˢ entry.0

entries_of-remove_key :
    (key : String) (header : Header) → entries_of key (remove_key key header) ≡ []
unfolding entries_of
entries_of-remove_key key [] = refl
entries_of-remove_key key ((name, values) ∷ header) =
    ground (arith, entries_of-remove_key key header)

-- A key that no hop owns.
abbrev pub IsEndToEnd : (String → String) → List String → String → Type 0
IsEndToEnd to_lower connection key =
    (is_member (to_lower key) hop_by_hop_headers || is_member (to_lower key) connection) ≡ false

module _ (to_lower trim_space canonical : String → String)
    (case_only : (name : String) → to_lower (canonical name) ≡ to_lower name) where
  AreEndToEnd : List String → Header → Type 0
  AreEndToEnd connection header = All (λ entry. IsEndToEnd to_lower connection entry.0) header

  add_value-AreEndToEnd :
      (connection : List String) (key value : String) (header : Header)
      → IsEndToEnd to_lower connection key
      → AreEndToEnd connection header
      → AreEndToEnd connection (add_value key value header)
  unfolding AreEndToEnd
  add_value-AreEndToEnd connection key value [] h k = (h, tt)
  add_value-AreEndToEnd connection key value ((name, values) ∷ header) h k =
      elim (Bool-cases (key =ˢ name)) [
        | inl e ↦ rw e k
        | inr e ↦ rw e (k.0, add_value-AreEndToEnd connection key value header h k.1)
      ]

  add_all-AreEndToEnd :
      (connection : List String) (name : String) (values : List String) (header : Header)
      → IsEndToEnd to_lower connection name
      → AreEndToEnd connection header
      → AreEndToEnd connection (add_all to_lower trim_space canonical name values header)
  add_all-AreEndToEnd connection name [] header h k = k
  add_all-AreEndToEnd connection name (value ∷ values) header h k =
      add_all-AreEndToEnd connection name values _ h
        (add_value-AreEndToEnd connection (canonical name) value header (rw (case_only name) h) k)

  copy_entries-AreEndToEnd :
      (connection : List String) (source destination : Header)
      → AreEndToEnd connection destination
      → AreEndToEnd connection
          (copy_entries to_lower trim_space canonical connection destination source)
  copy_entries-AreEndToEnd connection [] destination k = k
  copy_entries-AreEndToEnd connection ((name, values) ∷ source) destination k =
      copy_entries-AreEndToEnd connection source _
        (elim (Bool-cases (is_dropped to_lower trim_space canonical connection name)) [
          | inl e ↦ rw e k
          | inr e ↦ rw e (add_all-AreEndToEnd connection name values destination e k)
        ])

  -- The model server gets the gateway's own key as the only Authorization, whatever the client sent;
  -- and apart from it only keys that are end to end: neither one of the hop-by-hop headers nor one that
  -- the client's Connection header names. The canonical form of a key differs in its case only.
  pub upstream_headers_clean :
      (api_key : String) (source : Header)
      → let header : Header = upstream_headers to_lower trim_space canonical api_key source in
        (select (λ entry. "Authorization" =ˢ entry.0) header
          ≡ ("Authorization", ("Bearer " +ˢ api_key) ∷ []) ∷ [])
        × All
            (λ entry.
              IsEndToEnd to_lower (connection_headers to_lower trim_space canonical source) entry.0
              ⊎ (entry.0 ≡ "Authorization"))
            header
  unfolding upstream_headers copy_headers AreEndToEnd entries_of
  upstream_headers_clean api_key source = (
    ap (◌∷◌ ("Authorization", ("Bearer " +ˢ api_key) ∷ [])) (
        entries_of-remove_key "Authorization"
          (remove_key "Authorization" (copy_headers to_lower trim_space canonical [] source))),
    (
      inr refl,
      All-map (λ entry. IsEndToEnd to_lower _ entry.0) _ (λ entry h. inl h) _
          (All-select _ _ _ (
            All-select _ _ _ (
              copy_entries-AreEndToEnd (connection_headers to_lower trim_space canonical source)
                source [] tt))),
    ),
  )
