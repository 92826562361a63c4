-- ===== src/Tests/Versions.antt =====
-- Publishing, review and removal of the sample extension.
use twexthub.Shared.{
  ◌≡◌, refl, arith, true, false, none, some, All, length, keep, ok, value_or, ◌≤◌,
}
use twexthub.Db.{Db, Row, Version, rejected, public}
use twexthub.Util.Versions.{is_valid, max_version_by_semver, step_max}
use twexthub.Transfer.Move.{redirect_for}
use twexthub.Access.Ownership.{can_see}
use twexthub.Util.Names.{is_valid_namespace, is_valid_extension_id}
use twexthub.Transfer.Charges.{IsAccounted}
use twexthub.Packages.Requests.{Effect, silent}
use twexthub.Packages.Resolve.{
  load_latest_published, resolve_version, latest_pool, visible_versions,
}
use twexthub.Packages.Resolve.Latest.{Serves, load_latest_published-Serves}
use twexthub.Packages.Publish.{stage, publish_version}
use twexthub.Packages.Publish.Staging.{versions_of, stage-greatest}
use twexthub.Packages.Publish.Growth.{awaits}
use twexthub.Packages.Publish.Outcome.{publish_version-IsAccounted, publish_version-le-one}
use twexthub.Packages.Review.{yank}
use twexthub.Packages.Removal.{remove_extension}
use twexthub.Packages.Removal.Refund.{remove_extension-IsAccounted, remove_extension-dangling_tag}
use twexthub.Packages.Lifecycle.Settled.{IsSettled}
use twexthub.Packages.Lifecycle.History.{start, then_step, yanked_step, History-IsSettled}
use twexthub.Tests.Data.{
  one_digit, no_limits, alice, tool, one, registry, as_account, three, built, half_full,
}

abbrev staged : Db × Row Version
unfolding stage
staged =
    value_or (registry, one)
      (stage one_digit no_limits alice alice tool three built public registry)

stages :
    stage one_digit no_limits alice alice tool three built public registry ≡ ok (staged.0, staged.1)
unfolding stage staged redirect_for max_version_by_semver step_max
stages = refl

stage-greatest_example :
    All
      (λ v. is_valid one_digit v ≡ true → one_digit.gt staged.1.cols.version v ≡ true)
      (versions_of registry tool)
stage-greatest_example =
    stage-greatest one_digit no_limits alice alice tool three built public registry staged.0
      staged.1 stages

publish_version-IsAccounted_example :
    IsAccounted
      (publish_version one_digit no_limits half_full 9 alice alice tool three built public
        registry).0.users
      (publish_version one_digit no_limits half_full 9 alice alice tool three built public
        registry).0.versions
publish_version-IsAccounted_example =
    publish_version-IsAccounted one_digit no_limits half_full 9 alice alice tool three built public
      registry (refl, (refl, tt)) (refl, (refl, tt)) (refl, (refl, tt))

publish_version-le-one_example :
    length (
      keep
        (awaits 1)
        (publish_version one_digit no_limits half_full 9 alice alice tool three built public
          registry).0.versions)
    ≤ 1
publish_version-le-one_example =
    publish_version-le-one one_digit no_limits half_full 9 alice alice tool three built public
      registry 1 (refl, (refl, tt)) (omega arith)

abbrev after_yank : Effect
unfolding yank
after_yank =
    value_or (silent registry)
      (yank one_digit none (some (as_account alice)) tool "stable" registry)

yanks : yank one_digit none (some (as_account alice)) tool "stable" registry ≡ ok after_yank
unfolding yank after_yank is_valid_namespace is_valid_extension_id
yanks = refl

abbrev after_removal : Effect
unfolding remove_extension
after_removal =
    value_or (silent registry) (remove_extension none (some (as_account alice)) tool registry)

removes : remove_extension none (some (as_account alice)) tool registry ≡ ok after_removal
unfolding remove_extension after_removal is_valid_namespace is_valid_extension_id
removes = refl

History-IsSettled_example : IsSettled 2 rejected after_yank.db
History-IsSettled_example =
    History-IsSettled one_digit no_limits 2 rejected refl
      (then_step start (yanked_step none (some (as_account alice)) tool "stable" yanks))
      (((refl, λ e. ground arith), ((refl, λ e. refl), tt)), refl)

remove_extension-IsAccounted_example : IsAccounted after_removal.db.users after_removal.db.versions
remove_extension-IsAccounted_example =
    remove_extension-IsAccounted none (some (as_account alice)) tool registry after_removal
      (λ account found.
        let same : account ≡ alice = ground (arith, found) in rw same (refl, (refl, tt)))
      (refl, (refl, tt)) removes

remove_extension-dangling_tag_example :
    resolve_version one_digit after_removal.db none tool "stable" ≡ ok none
unfolding resolve_version
remove_extension-dangling_tag_example =
    remove_extension-dangling_tag none (some (as_account alice)) tool registry after_removal
      one_digit none "stable"
      (record { address = tool; cols = record { owner_id = 1; tag = "stable"; version = "1.0.0" } })
      refl refl refl removes

finds_latest : load_latest_published one_digit registry none tool ≡ some one
unfolding load_latest_published can_see max_version_by_semver step_max
finds_latest = refl

load_latest_published-Serves_example :
    Serves registry none tool one
    × All
        (λ r.
          is_valid one_digit r.cols.version ≡ true
          → one_digit.gt r.cols.version one.cols.version ≡ false)
        (latest_pool (visible_versions registry none tool))
load_latest_published-Serves_example =
    load_latest_published-Serves one_digit registry none tool one finds_latest
