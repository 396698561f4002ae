-- ===== src/Raw/Complete.antt =====
-- Which documents of raw operations are complete.
use golang_postgres_starter.Base.{
  ℕ, ◌≤◌, Text, codes, true, false, ◌||◌, ◌==◌, nat_eq, text_eq, List, [], ◌∷◌, map, contains,
  Option, ◌≡◌, ◌↔◌, All,
}
use golang_postgres_starter.Success.{status_forbids_body}
use golang_postgres_starter.Route.{path_placeholders}
use golang_postgres_starter.Binding.{Parsers}
use golang_postgres_starter.Raw.{
  DocParam, RawResponse, RawDoc, is_raw_media_type, param_key, path_names, validate_raw_params,
  validate_raw_doc, undocumented, unplaced,
}
use golang_postgres_starter.Raw.Checks.{
  both, check_for, same, status_iff, body_iff, AreApart, keys_none_iff, keys_one_iff, excluded_iff,
  BodyFits, IsParam, IsResponse, check_raw_params_iff, check_responses_iff, lacking_iff,
}

abbrev pub TakesNoBody : Text → Type 0
TakesNoBody method = (method == codes "GET" || method == codes "HEAD") ≡ true

abbrev status_of : RawResponse → ℕ
status_of r = r.status

module _ {L : Type 0} (lib : Parsers L) where
  -- The parameters of a document, and the placeholders of the path.
  pub record AreParams (params : List DocParam) (path : Text) : Type 0 where
    pub each : All (IsParam lib) params
    pub apart : AreApart (map param_key params)
    pub documented : All (λ n. contains (path_names params) n ≡ true) (path_placeholders path)
    pub placed : All (λ n. contains (path_placeholders path) n ≡ true) (path_names params)

  validate_raw_params_iff :
      (params : List DocParam) (path : Text)
      → (validate_raw_params lib params path ≡ []) ↔ AreParams params path
  unfolding validate_raw_params
  validate_raw_params_iff params path =
      let all = both (check_raw_params_iff lib [] params) (
        both (lacking_iff (path_names params) undocumented (path_placeholders path))
          (lacking_iff (path_placeholders path) unplaced (path_names params))) in
      let apart = keys_none_iff (map param_key params) in
      (
        (λ h.
            let ((fresh, each), (documented, placed)) = all.0 h in
            record {
              each = each;
              apart = apart.0 fresh;
              documented = documented;
              placed = placed;
            }),
        λ is. all.1 ((apart.1 is.apart, is.each), (is.documented, is.placed)),
      )

  -- A complete document of a method and a path.
  pub record IsComplete (parse : Text → Option Text) (doc : RawDoc) (method path : Text)
      : Type 0 where
    pub succeeds : (200 ≤ doc.status) × (doc.status ≤ 399)
    pub produces : is_raw_media_type parse doc.produces ≡ true
    pub bodiless : TakesNoBody method → doc.has_request ≡ false
    pub fits : BodyFits doc.status doc.has_response doc.no_body
    pub params : AreParams doc.params path
    pub responses : All IsResponse doc.responses
    pub apart : AreApart (doc.status ∷ map status_of doc.responses)

  -- The check of a raw operation's document passes exactly if the document is complete for the
  -- method and the path: the status is of the 2xx or 3xx, the media type is well-formed, a GET or a
  -- HEAD has no request body, a response type is set exactly where neither the status nor NoBody
  -- excludes it; each parameter is named, has one of the four locations and a type that can be set,
  -- and is required where it is in the path, no two parameters have one location and name, and the
  -- path parameters are the placeholders of the path; each further response has a status of the 2xx
  -- or 3xx, a description and a type that fits; and all statuses differ.
  pub validate_raw_doc_iff :
      (parse : Text → Option Text) (doc : RawDoc) (method path : Text)
      → (validate_raw_doc lib parse doc method path ≡ []) ↔ IsComplete parse doc method path
  unfolding validate_raw_doc
  validate_raw_doc_iff parse doc method path =
      let all = both (check_for _ _ (status_iff doc.status)) (
        both (check_for _ _ same) (
          both
            (check_for _ _
              (excluded_iff (method == codes "GET" || method == codes "HEAD") doc.has_request))
            (both (body_iff (status_forbids_body doc.status) doc.has_response doc.no_body) (
              both (validate_raw_params_iff doc.params path)
                (check_responses_iff (doc.status ∷ []) doc.responses))))) in
      let statuses = keys_one_iff doc.status (map status_of doc.responses) in
      (
        (λ h.
            let (succeeds, (produces, (bodiless, (fits, (params, (fresh, responses)))))) =
              all.0 h in
            record {
              succeeds = succeeds;
              produces = produces;
              bodiless = bodiless;
              fits = fits;
              params = params;
              responses = responses;
              apart = statuses.0 fresh;
            }),
        λ is. all.1 (
          is.succeeds,
          (is.produces, (is.bodiless, (is.fits, (is.params, (statuses.1 is.apart, is.responses))))),
        ),
      )
