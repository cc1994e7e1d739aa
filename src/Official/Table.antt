-- ===== src/Official/Table.antt =====
-- pkg/officialurls/officialurls.go: the table of official base URLs, indexed by channel type.
use test_enclave_newapi.Common.{List, [], ◌∷◌}
use test_enclave_newapi.Text.{Bytes, codes}

abbrev pub base_urls : List Bytes
base_urls =
    []
    ∷ codes "https://api.openai.com"
    ∷ codes "https://oa.api2d.net"
    ∷ []
    ∷ codes "http://localhost:11434"
    ∷ codes "https://api.openai-sb.com"
    ∷ codes "https://api.openaimax.com"
    ∷ codes "https://api.ohmygpt.com"
    ∷ []
    ∷ codes "https://api.caipacity.com"
    ∷ codes "https://api.aiproxy.io"
    ∷ []
    ∷ codes "https://api.api2gpt.com"
    ∷ codes "https://api.aigc2d.com"
    ∷ codes "https://api.anthropic.com"
    ∷ codes "https://aip.baidubce.com"
    ∷ codes "https://open.bigmodel.cn"
    ∷ codes "https://dashscope.aliyuncs.com"
    ∷ []
    ∷ codes "https://api.360.cn"
    ∷ codes "https://openrouter.ai/api"
    ∷ codes "https://api.aiproxy.io"
    ∷ codes "https://fastgpt.run/api/openapi"
    ∷ codes "https://hunyuan.tencentcloudapi.com"
    ∷ codes "https://generativelanguage.googleapis.com"
    ∷ codes "https://api.moonshot.cn"
    ∷ codes "https://open.bigmodel.cn"
    ∷ codes "https://api.perplexity.ai"
    ∷ []
    ∷ []
    ∷ []
    ∷ codes "https://api.lingyiwanwu.com"
    ∷ []
    ∷ []
    ∷ codes "https://api.cohere.ai"
    ∷ codes "https://api.minimax.chat"
    ∷ []
    ∷ codes "https://api.dify.ai"
    ∷ codes "https://api.jina.ai"
    ∷ codes "https://api.cloudflare.com"
    ∷ codes "https://api.siliconflow.cn"
    ∷ []
    ∷ codes "https://api.mistral.ai"
    ∷ codes "https://api.deepseek.com"
    ∷ codes "https://api.moka.ai"
    ∷ codes "https://ark.cn-beijing.volces.com"
    ∷ codes "https://qianfan.baidubce.com"
    ∷ []
    ∷ codes "https://api.x.ai"
    ∷ codes "https://api.coze.cn"
    ∷ codes "https://api.klingai.com"
    ∷ codes "https://visual.volcengineapi.com"
    ∷ codes "https://api.vidu.cn"
    ∷ codes "https://llm.submodel.ai"
    ∷ codes "https://ark.cn-beijing.volces.com"
    ∷ codes "https://api.openai.com"
    ∷ codes "https://api.replicate.com"
    ∷ codes "https://chatgpt.com"
    ∷ []
    ∷ []
    ∷ []
