-- ===== src/Project/Failures.antt =====
-- A failed request to the OpenShift server, in the functions that make projects.
use datafoundry_proxy.Base.{◌≡◌, refl, ◌++◌, codes}
use datafoundry_proxy.Errors.{GoError}
use datafoundry_proxy.Types.{UserInfo, Orgnazition}
use datafoundry_proxy.Effect.{returns, fails, ◌>>=◌}
use datafoundry_proxy.Backend.{Backend, project_request}
use datafoundry_proxy.Project.{send_request, project_sent, create_project}

module _ {W : Type 0} (B : Backend W) where
  -- A project request that does not reach the server is reported as a success, and the role bindings
  -- of the project are not asked for.
  pub create_project-unreachable :
      (user : UserInfo) (org : Orgnazition) (w w' : W) (e : GoError)
      → send_request B
          (codes "POST")
          (B.df_host ++ codes "/oapi/v1/projectrequests")
          (project_request org.id org.name)
          user.token
          w
        ≡ (fails e, w')
      → create_project B user org w ≡ (returns tt, w')
  unfolding ◌>>=◌ create_project project_sent
  create_project-unreachable user org w w' e failed = rw failed refl
