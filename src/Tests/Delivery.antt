-- ===== src/Tests/Delivery.antt =====
-- The post of Tests/Publish on a network that refuses no account.
use goloom.Domain.Post.{PostStatus}
use goloom.Publish.{load_post_targets}
use goloom.Publish.Provider.{World}
use goloom.Publish.Worker.{prepare_publication}
use goloom.Publish.Worker.Run.{poll, version_contents, is_error}
use goloom.Publish.Delivery.{IsWorking, Accepted, IsDeliverable, Claimable, poll-posted}
use goloom.Postservice.{resolve_targets}
use goloom.Tests.Publish.{account, world, stored, world-IsWorld, stored-is_due}
use goloom.Prelude.{String, ◌≡◌, refl, false, [], ◌∷◌, ◌==◌, eq_nat, eq_text, ne_of_beq}

abbrev open_world : World
open_world = world "nobody"

open_world-IsWorking : IsWorking open_world
open_world-IsWorking = record {
  claims = λ id. refl;
  outcomes = λ id. refl;
  results = refl;
  targets = refl;
  versions = refl;
}

accounts-loaded :
    load_post_targets open_world.accounts stored.post.team_id stored.targets
    ≡ account "a" ∷ account "b" ∷ []
unfolding load_post_targets
accounts-loaded = refl

account-Accepted :
    (id : String)
    → (id == "nobody") ≡ false
    → Accepted open_world 100 stored.post (version_contents stored.versions []) (account id)
unfolding prepare_publication goloom.Publish.Provider.ensure_mastodon_fresh
    goloom.Domain.Post.lookup goloom.Domain.Post.Media.filter_media_ids_for_account version_contents
    goloom.Domain.Post.Media.normalize_media_ids
account-Accepted id real = record {
  fresh = account id;
  request = record { content = "Hello"; media_ids = []; visibility = "public" };
  url = "https://example.org/1";
  metadata = [];
  remote_id = "1";
  prepared = refl;
  accepted = rw real refl;
}

rows-Claimable : Claimable (account "a" ∷ account "b" ∷ []) stored.targets
unfolding goloom.Publish.claimable_rows
rows-Claimable = (refl, (ne_of_beq "b" "a" refl, tt), (refl, tt, tt))

targets-resolve :
    is_error (resolve_targets open_world.load_accounts "team" stored.post.target_accounts [])
    ≡ false
unfolding resolve_targets goloom.Postservice.resolve_loaded goloom.Postservice.scan_targets
    goloom.Postservice.find_account goloom.Postservice.check_overrides
targets-resolve = refl

stored-IsDeliverable : IsDeliverable open_world 100 stored
stored-IsDeliverable = record {
  resolves = targets-resolve;
  accepted = rw accounts-loaded (account-Accepted "a" refl, (account-Accepted "b" refl, tt));
  rows = rw accounts-loaded rows-Claimable;
}

poll-posted_example : (poll open_world 100 stored).post.status ≡ PostStatus.posted
poll-posted_example =
    poll-posted open_world 100 stored (world-IsWorld "nobody") open_world-IsWorking stored-is_due
      stored-IsDeliverable
