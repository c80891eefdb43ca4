-- ===== src/Samples/Subdomains.antt =====
-- examples/subdomain/main.go.
use rediver_sdk_go.Prelude.{
  ℕ, zero, suc, String, ◌<>◌, some, none, List, [], ◌∷◌, ◌++◌, pos, elems, length, non_empty,
  if◌then◌else◌,
}
use rediver_sdk_go.Strconv.{format_int}
use rediver_sdk_go.Result.{Domain}
use rediver_sdk_go.Result.Accessors.{of_domains}
use rediver_sdk_go.Param.Value.{str, integer, int}
use rediver_sdk_go.Param.Builder.{
  Param, string_param, int_param, with_label, with_description, with_default,
}
use rediver_sdk_go.Param.Access.{string_or, int_or}
use rediver_sdk_go.Job.Defs.{param}
use rediver_sdk_go.Job.Targets.{DomainTarget, domains}
use rediver_sdk_go.Scanner.{
  Scanner, ScanFunc, new_scanner, with_display_name, with_retest_handler, with_param,
}
use rediver_sdk_go.Samples.{Surroundings, text, number, count, each_target, emit_found}

-- `Domain{Domain: name}`
unfoldable pub domain_named : String → Domain
domain_named name = record {
  domain = name;
  a = none;
  aaaa = none;
  cname = "";
  mx = none;
  txt = none;
  soa = none;
  ns = none;
  ttl = pos 0;
}

-- `for i := 0; i < 5; i++`, from an `i` with so many rounds to go.
unfoldable pub guesses : (rounds i : ℕ) → String → List Domain
unfolding domain_named format_int
guesses zero i value = []
guesses (suc rounds) i value =
    domain_named ("sub" <> format_int (pos i) <> "." <> value) ∷ guesses rounds (suc i) value

unfoldable pub discover : DomainTarget → List Domain
unfolding guesses
discover t = guesses 5 0 t.value

module _ {F O : Type 0} where
  abbrev wordlist : Param F O
  wordlist =
      with_default (str "/usr/share/wordlists/subdomains.txt")
        (with_description "Path to wordlist file" (with_label "Wordlist" (string_param "wordlist")))

  abbrev threads : Param F O
  threads =
      with_default (integer int (pos 10)) (
        with_description "Number of concurrent threads"
          (with_label "Threads" (int_param "threads")))

module _ {S F : Type 0} (env : Surroundings S F) where
  -- A target without a value is passed over, without a pause.
  unfoldable pub recheck_round : DomainTarget → List Domain → S → List Domain × S
  unfolding domain_named
  recheck_round t found s =
      if non_empty t.value then (found ++ domain_named t.value ∷ [], env.sleep 50 s) else (found, s)

module _ {S F O G : Type 0} (env : Surroundings S F) where
  unfoldable pub discover_subdomains : ScanFunc S F O G
  unfolding domains
  discover_subdomains j s =
      let wordlist =
        string_or env.floats (param j "wordlist") "/usr/share/wordlists/subdomains.txt" in
      let threads = int_or env.floats (param j "threads") (pos 10) in
      let s1 =
        env.info "starting discovery"
          (("wordlist", text wordlist) ∷ ("threads", number threads) ∷ []) s in
      emit_found of_domains (λ found s. s)
        (each_target env (λ t found s. (found ++ discover t, env.sleep 100 s)) (elems (domains j))
          [] s1)

  unfoldable pub retest_subdomains : ScanFunc S F O G
  unfolding domains
  retest_subdomains j s =
      let s1 =
        env.info "starting recheck" (("domains_count", count (length (elems (domains j)))) ∷ [])
          s in
      emit_found of_domains (λ found s. s)
        (each_target env (recheck_round env) (elems (domains j)) [] s1)

  unfoldable pub subdomain : Scanner S F O G
  unfolding new_scanner discover_subdomains retest_subdomains
  subdomain = new_scanner "subdomain" ("RootDomain" ∷ []) discover_subdomains (
      with_display_name "Subdomain Discovery"
      ∷ with_retest_handler (some retest_subdomains)
      ∷ with_param wordlist
      ∷ with_param threads
      ∷ [])
